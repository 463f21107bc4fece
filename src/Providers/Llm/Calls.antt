-- ===== src/Providers/Llm/Calls.antt =====
-- The calls of ragent/providers/llm.py: what is sent to a provider, and what is made of what it
-- sends back. The SDKs are parameters, as the replies that they return; `latency_ms` is measured.
use ragent.Common.{
  ℕ, String, Bool, Option, none, some, List, [], ◌∷◌, ◌++◌, map, true, false, str_eq, leb,
  if◌then◌else◌, is_empty,
}
use ragent.Ingest.Text.{Text}
use ragent.Providers.Llm.{Usage, Streamed}

-- The text of a system prompt that is sent: none for an empty one.
abbrev pub system_or_none : Option Text → Option Text
system_or_none none = none
system_or_none (some []) = none
system_or_none (some (c ∷ t)) = some (c ∷ t)

-- `kwargs` of Anthropic's `messages.create`.
pub record AnthropicRequest : Type 0 where
  pub model : String
  pub max_tokens : ℕ
  pub messages : List (String × Text)
  pub system : Option Text
  pub adaptive_thinking : Bool

unfoldable pub anthropic_request : String → Text → Option Text → ℕ → Bool → AnthropicRequest
anthropic_request model prompt system max_tokens thinking = record {
  model = model;
  max_tokens = max_tokens;
  messages = ("user", prompt) ∷ [];
  system = system_or_none system;
  adaptive_thinking = thinking;
}

-- `OpenAIProvider._messages`
unfoldable pub openai_messages : Text → Option Text → List (String × Text)
openai_messages prompt system = elim (system_or_none system) [
  | none ↦ ("user", prompt) ∷ []
  | some s ↦ ("system", s) ∷ ("user", prompt) ∷ []
]

-- How a call of an SDK ends.
pub data Answered (A : Type 0) : Type 0 where
  answered : A → Answered A
  rate_limited : Answered A
  -- Another error, as of the connection.
  broken : Answered A
  status_error : ℕ → Answered A

-- How `complete` ends: LLMUnavailable is for a request that was rejected, and what the stage runner
-- retries is raised again.
pub data Completed : Type 0 where
  completed : Text → Usage → Completed
  llm_unavailable : Completed
  reraised : Completed

abbrev pub failed_with : ℕ → Completed
failed_with status = if leb 500 status then reraised else llm_unavailable

-- A content block: its type and its text.
abbrev pub Block : Type 0
Block = String × Text

unfoldable pub text_of_blocks : List Block → Text
text_of_blocks [] = []
text_of_blocks ((kind, text) ∷ rest) =
    let more = text_of_blocks rest in if str_eq kind "text" then text ++ more else more

-- The usage of a call; a server that reports none counts as 0.
unfoldable pub usage_of : String → String → ℕ → Option (ℕ × ℕ) → Usage
usage_of model provider latency_ms none = record {
  model = model;
  provider = provider;
  input_tokens = 0;
  output_tokens = 0;
  latency_ms = latency_ms;
}
usage_of model provider latency_ms (some (input, output)) = record {
  model = model;
  provider = provider;
  input_tokens = input;
  output_tokens = output;
  latency_ms = latency_ms;
}

unfoldable pub anthropic_complete : String → ℕ → Answered (List Block × (ℕ × ℕ)) → Completed
anthropic_complete model latency_ms (answered (blocks, counts)) =
    completed (text_of_blocks blocks) (usage_of model "anthropic" latency_ms (some counts))
anthropic_complete model latency_ms rate_limited = reraised
anthropic_complete model latency_ms broken = reraised
anthropic_complete model latency_ms (status_error status) = failed_with status

-- `response.choices[0].message.content or ""`
abbrev pub content_or_empty : Option Text → Text
content_or_empty none = []
content_or_empty (some t) = t

unfoldable pub openai_complete : String → ℕ → Answered (Option Text × Option (ℕ × ℕ)) → Completed
openai_complete model latency_ms (answered (content, counts)) =
    completed (content_or_empty content) (usage_of model "openai" latency_ms counts)
openai_complete model latency_ms rate_limited = reraised
openai_complete model latency_ms broken = reraised
openai_complete model latency_ms (status_error status) = failed_with status

-- The deltas of the SDK's text stream, which may raise, as it does where it cannot be opened. Behind
-- the last comes the usage of the final message, where `get_final_message` does not raise (`none`).
unfoldable pub anthropic_stream :
    String → ℕ → Streamed Text → Option (ℕ × ℕ) → Streamed (Text × Option Usage)
anthropic_stream model latency_ms sent final =
    let deltas : List (Text × Option Usage) = map (λ (t : Text). (t, none)) sent.items in
    let ended : Streamed (Text × Option Usage) = elim final [
      | none ↦ record { items = deltas; raised = true }
      | some counts ↦ record {
        items = deltas ++ ([], some (usage_of model "anthropic" latency_ms (some counts))) ∷ [];
        raised = false;
      }
    ] in
    if sent.raised then record { items = deltas; raised = true } else ended

-- A chunk of the stream: the token counts, and the delta of the first choice where there is one.
pub record StreamChunk : Type 0 where
  pub usage : Option (ℕ × ℕ)
  pub choices : List (Option Text)

abbrev pub counts_after : ℕ × ℕ → Option (ℕ × ℕ) → ℕ × ℕ
counts_after counts none = counts
counts_after counts (some new) = new

abbrev pub first_delta : List (Option Text) → Text
first_delta [] = []
first_delta (content ∷ _) = content_or_empty content

-- The loop over the chunks, with the counts that were reported last, and the usage behind it, unless
-- the SDK's stream has raised.
unfoldable pub openai_items :
    String → ℕ → Bool → ℕ × ℕ → List StreamChunk → List (Text × Option Usage)
openai_items model latency_ms raised counts [] =
    if raised then [] else ([], some (usage_of model "openai" latency_ms (some counts))) ∷ []
openai_items model latency_ms raised counts (chunk ∷ rest) =
    let more = openai_items model latency_ms raised (counts_after counts chunk.usage) rest in
    let text = first_delta chunk.choices in if is_empty text then more else (text, none) ∷ more

-- A stream that `create` cannot open raises before its first chunk.
unfoldable pub openai_stream : String → ℕ → Streamed StreamChunk → Streamed (Text × Option Usage)
openai_stream model latency_ms sent = record {
  items = openai_items model latency_ms sent.raised (0, 0) sent.items;
  raised = sent.raised;
}
