-- ===== src/Tests/Openai.antt =====
-- A chat completion over the store of one chunk.
use ragent.Common.{String, ◌≡◌, refl, true, false, none, some, List, [], ◌∷◌, ◌++◌, contains}
use ragent.Ingest.Text.{Text, codes, strip, lstrip, rstrip, is_space}
use ragent.Api.OpenaiRequests.{
  ok, http_error, strategies, model_prefix, dashed_prefix, strategy_for, user, assistant, plain,
  parts, ChatMessage, ChatCompletionRequest, last_question, query_of, as_text,
}
use ragent.Api.OpenaiCompat.{chat_completions}
use ragent.Api.OpenaiCompat.Streams.{asked, Agree, chat_completions-Agree}
use ragent.Api.OpenaiRequests.Models.{IsServed, strategy_for_lem}
use ragent.Tests.Fusion.{numbers}
use ragent.Tests.Search.{settings, backends}
use ragent.Tests.Answers.{rounding, stream_text}

abbrev messages : List ChatMessage
messages =
    record { role = user; content = plain (codes "Hello") }
    ∷ record {
      role = user;
      content = parts (
          record { type_of = "text"; text = some (codes " Why?") }
          ∷ record { type_of = "image_url"; text = none }
          ∷ []);
    }
    ∷ record { role = assistant; content = plain (codes "Hm") }
    ∷ []

-- The last turn of the user.
last_turn : query_of messages ≡ ok (codes "Why?")
unfolding query_of last_question as_text strip lstrip rstrip is_space
last_turn = refl

abbrev request : ChatCompletionRequest
request = record {
  model = codes "ragent-layout";
  messages = messages;
  stream = true;
  document_ids = [];
}

chat_completions-Agree_example :
    Agree
      (chat_completions settings backends rounding true stream_text "chatcmpl-1" 7
        (asked false request))
      (chat_completions settings backends rounding true stream_text "chatcmpl-1" 7
        (asked true request))
chat_completions-Agree_example =
    chat_completions-Agree numbers settings backends rounding true stream_text "chatcmpl-1" 7
      request

strategy_for_lem_example :
    ((s : String)
      → contains strategies s ≡ true
      → strategy_for ("layout" ∷ []) (dashed_prefix ++ codes s) ≡ ok s)
    × (strategy_for ("layout" ∷ []) model_prefix ≡ ok "layout")
    × (strategy_for ("layout" ∷ []) [] ≡ ok "layout")
    × ((model : Text) → IsServed "layout" [] model)
strategy_for_lem_example = strategy_for_lem "layout" []

unknown_model : strategy_for ("layout" ∷ []) (codes "gpt-4o") ≡ http_error 404
unfolding strategy_for
unknown_model = refl
