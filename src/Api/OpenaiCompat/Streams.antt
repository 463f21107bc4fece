-- ===== src/Api/OpenaiCompat/Streams.antt =====
-- A streamed completion against a whole one.
use ragent.Common.{
  ℕ, String, ◌≡◌, refl, ap, Bool, true, false, Option, none, some, List, [], ◌∷◌, ◌++◌, is_empty,
  Each, Bool-cases, inl, inr,
}
use mathlib.Core.List.{append-nil}
use ragent.Ingest.Text.{Text}
use ragent.Retrieval.Fusion.{Numbers}
use ragent.Retrieval.Search.{Settings, Passage, Backends, hybrid_search}
use ragent.Agent.Answer.{
  Frame, delta, citations, usage, done, UsageData, StreamText, Rounding, answer_stream,
}
use ragent.Api.OpenaiRequests.{
  Reply, ok, http_error, server_error, strategy_for, query_of, ChatCompletionRequest,
}
use ragent.Api.OpenaiCompat.{
  Event, role_event, content_event, final_event, done_event, Response, whole, streamed, text_of,
  complete, delta_events, stream_events, chat_completions, respond, search_and_respond, on_strategy,
}

-- What a client that reads the events puts together.
abbrev pub read_content : List Event → Text
read_content [] = []
read_content (content_event t ∷ rest) = t ++ read_content rest
read_content (role_event ∷ rest) = read_content rest
read_content (final_event cs u ∷ rest) = read_content rest
read_content (done_event ∷ rest) = read_content rest

abbrev pub IsContent : Event → Type 0
IsContent (content_event t) = is_empty t ≡ false
IsContent _ = ⊥

module _ {num : Numbers} where
  delta_events-IsContent :
      (frames : List (Frame (Passage num) UsageData)) → Each IsContent (delta_events frames)
  unfolding delta_events
  delta_events-IsContent [] = tt
  delta_events-IsContent (delta [] ∷ rest) = delta_events-IsContent rest
  delta_events-IsContent (delta (c ∷ t) ∷ rest) = (refl, delta_events-IsContent rest)
  delta_events-IsContent (citations cs ∷ rest) = delta_events-IsContent rest
  delta_events-IsContent (usage u ∷ rest) = delta_events-IsContent rest
  delta_events-IsContent (done ∷ rest) = delta_events-IsContent rest

  content_lem :
      (frames : List (Frame (Passage num) UsageData))
      → read_content (delta_events frames) ≡ text_of frames
  unfolding delta_events text_of
  content_lem [] = refl
  content_lem (delta [] ∷ rest) = content_lem rest
  content_lem (delta (c ∷ t) ∷ rest) = ap (λ s. (c ∷ t) ++ s) (content_lem rest)
  content_lem (citations cs ∷ rest) = content_lem rest
  content_lem (usage u ∷ rest) = content_lem rest
  content_lem (done ∷ rest) = content_lem rest

-- The request, whole or streamed.
abbrev pub asked : Bool → ChatCompletionRequest → ChatCompletionRequest
asked stream request = record request { stream = stream }

-- What the two answers to one request have in common: both are the same error; or the events of the
-- streamed one are the role, then deltas that each hold text and together the whole one's content,
-- then one final event with its citations and its token counts, then the end; or the whole one is a
-- server error, and the streamed one is the role and some deltas and is then cut off.
abbrev pub Agree : Reply Response → Reply Response → Type 0
Agree (ok (whole c)) (ok (streamed id created model events)) =
    (deltas : List Event) × (events.raised ≡ false)
    × (events.items ≡ role_event ∷ (deltas ++ (final_event c.citations c.usage ∷ done_event ∷ [])))
    × Each IsContent deltas
    × (read_content deltas ≡ c.content)
    × (id ≡ c.id)
    × (created ≡ c.created)
    × (model ≡ c.model)
Agree (http_error s) (http_error t) = s ≡ t
Agree server_error server_error = Unit
Agree server_error (ok (streamed id created model events)) =
    (deltas : List Event) × (events.raised ≡ true)
    × (events.items ≡ role_event ∷ deltas)
    × Each IsContent deltas
Agree _ _ = ⊥

module _ (num : Numbers) (settings : Settings) (backends : Backends num) (rounding : Rounding num)
    (available : Bool) (stream_text : StreamText) (id : String) (created : ℕ)
    (request : ChatCompletionRequest) where
  from_passages :
      (query : Text) (found : Option (List (Passage num)))
      → Agree
          (respond settings backends rounding available stream_text id created
            (asked false request)
            query
            found)
          (respond settings backends rounding available stream_text id created
            (asked true request)
            query
            found)
  unfolding respond stream_events complete
  from_passages query none = tt
  from_passages query (some passages) =
      let answer = answer_stream rounding available stream_text query passages in
      let frames = answer.items in
      elim (Bool-cases answer.raised) [
        | inl broken ↦ rw broken (
          delta_events frames,
          refl,
          ap (λ es. role_event ∷ es) (append-nil (delta_events frames)),
          delta_events-IsContent frames,
        )
        | inr fine ↦ rw fine (
          delta_events frames,
          refl,
          refl,
          delta_events-IsContent frames,
          content_lem frames,
          refl,
          refl,
          refl,
        )
      ]

  at_query :
      (strategy : String) (query : Reply Text)
      → Agree
          (search_and_respond settings backends rounding available stream_text id created
            (asked false request)
            strategy
            query)
          (search_and_respond settings backends rounding available stream_text id created
            (asked true request)
            strategy
            query)
  unfolding search_and_respond
  at_query strategy (http_error status) = refl
  at_query strategy server_error = tt
  at_query strategy (ok query) = from_passages query (
      hybrid_search num settings backends query (some strategy) none "default" request.document_ids
        [])

  at_strategy :
      (strategy : Reply String)
      → Agree
          (on_strategy settings backends rounding available stream_text id created
            (asked false request)
            strategy)
          (on_strategy settings backends rounding available stream_text id created
            (asked true request)
            strategy)
  unfolding on_strategy
  at_strategy (http_error status) = refl
  at_strategy server_error = tt
  at_strategy (ok strategy) = at_query strategy (query_of request.messages)

-- A streamed completion says what the whole one says. For any request, index and provider, the two
-- answers are the same error; or the streamed one is the role, then deltas that each hold text and
-- together are the whole one's content, then one final event with the same citations and token
-- counts, then the end; or the answer raises, and then the whole one is a server error, where the
-- streamed one is the role and deltas that each hold text, cut off without a final event and an end.
pub chat_completions-Agree :
    (num : Numbers) (settings : Settings) (backends : Backends num) (rounding : Rounding num)
    (available : Bool) (stream_text : StreamText) (id : String) (created : ℕ)
    (request : ChatCompletionRequest)
    → Agree
        (chat_completions settings backends rounding available stream_text id created
          (asked false request))
        (chat_completions settings backends rounding available stream_text id created
          (asked true request))
unfolding chat_completions
chat_completions-Agree num settings backends rounding available stream_text id created request =
    at_strategy num settings backends rounding available stream_text id created request
      (strategy_for settings.chunk_strategies request.model)
