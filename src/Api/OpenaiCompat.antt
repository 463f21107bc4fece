-- ===== src/Api/OpenaiCompat.antt =====
-- ragent/api/openai_compat.py: a chat completion, whole or streamed. A response is its values, which
-- the server writes as JSON; ids and times are parameters.
pub mod Streams
use ragent.Common.{
  ℕ, ◌+◌, String, Bool, Option, none, some, List, [], ◌∷◌, ◌++◌, map, if◌then◌else◌,
}
use ragent.Ingest.Text.{Text}
use ragent.Db.Targets.{Region}
use ragent.Providers.Llm.{Streamed}
use ragent.Retrieval.Fusion.{Numbers}
use ragent.Retrieval.Search.{Settings, Passage, Backends, hybrid_search}
use ragent.Api.OpenaiRequests.{
  Reply, ok, http_error, server_error, strategy_for, query_of, ChatCompletionRequest,
}
use ragent.Agent.Answer.{
  Frame, delta, citations, usage, done, UsageData, Citation, StreamText, Rounding, answer_stream,
}

pub record TokenCounts : Type 0 where
  pub prompt_tokens : ℕ
  pub completion_tokens : ℕ
  pub total_tokens : ℕ

-- `usage.get(..., 0)`, where no usage frame has come.
unfoldable pub token_counts : Option UsageData → TokenCounts
token_counts none = record { prompt_tokens = 0; completion_tokens = 0; total_tokens = 0 }
token_counts (some u) = record {
  prompt_tokens = u.input_tokens;
  completion_tokens = u.output_tokens;
  total_tokens = u.input_tokens + u.output_tokens;
}

-- A citation as a client gets it.
pub record CitationPayload : Type 0 where
  pub marker : ℕ
  pub document_id : String
  pub document_name : String
  pub provenance : String
  pub section_path : List String
  pub regions : List Region
  pub char_start : Option ℕ
  pub char_end : Option ℕ
  pub text : Text

-- The body of a whole completion, and the events of a streamed one.
pub record Completion : Type 0 where
  pub id : String
  pub created : ℕ
  pub model : Text
  pub content : Text
  pub usage : TokenCounts
  pub citations : List CitationPayload

pub data Event : Type 0 where
  role_event : Event
  content_event : Text → Event
  final_event : List CitationPayload → TokenCounts → Event
  done_event : Event

pub data Response : Type 0 where
  whole : Completion → Response
  -- id, created, model, and the events, which an exception cuts off
  streamed : String → ℕ → Text → Streamed Event → Response

-- A whole response.
abbrev pub whole_reply : Reply Completion → Reply Response
whole_reply (ok c) = ok (whole c)
whole_reply (http_error status) = http_error status
whole_reply server_error = server_error

module _ {num : Numbers} where
  unfoldable pub citation_payload : List (Citation (Passage num)) → List CitationPayload
  citation_payload = map λ (c : Citation (Passage num)). record {
    marker = c.marker;
    document_id = c.passage.document_id;
    document_name = c.passage.document_name;
    provenance = c.passage.provenance;
    section_path = c.passage.section_path;
    regions = c.passage.regions;
    char_start = c.passage.char_start;
    char_end = c.passage.char_end;
    text = c.passage.text;
  }

  -- `"".join(chunks)` of the loop, and what `citations` and `usage` hold behind it.
  unfoldable pub text_of : List (Frame (Passage num) UsageData) → Text
  text_of [] = []
  text_of (delta t ∷ rest) = t ++ text_of rest
  text_of (citations cs ∷ rest) = text_of rest
  text_of (usage u ∷ rest) = text_of rest
  text_of (done ∷ rest) = text_of rest

  unfoldable pub citations_of :
      List (Frame (Passage num) UsageData)
      → List (Citation (Passage num))
      → List (Citation (Passage num))
  citations_of [] before = before
  citations_of (citations cs ∷ rest) before = citations_of rest cs
  citations_of (delta t ∷ rest) before = citations_of rest before
  citations_of (usage u ∷ rest) before = citations_of rest before
  citations_of (done ∷ rest) before = citations_of rest before

  unfoldable pub usage_of :
      List (Frame (Passage num) UsageData) → Option UsageData → Option UsageData
  usage_of [] before = before
  usage_of (usage u ∷ rest) before = usage_of rest (some u)
  usage_of (delta t ∷ rest) before = usage_of rest before
  usage_of (citations cs ∷ rest) before = usage_of rest before
  usage_of (done ∷ rest) before = usage_of rest before

  -- `_complete`. An exception of the answer leaves it, and is a server error.
  unfoldable pub complete :
      String → ℕ → Text → Streamed (Frame (Passage num) UsageData) → Reply Completion
  complete id created model answer =
      if answer.raised
      then server_error
      else ok (record {
        id = id;
        created = created;
        model = model;
        content = text_of answer.items;
        usage = token_counts (usage_of answer.items none);
        citations = citation_payload (citations_of answer.items []);
      })

  -- The events of the loop in `_stream`: a delta without text sends none.
  unfoldable pub delta_events : List (Frame (Passage num) UsageData) → List Event
  delta_events [] = []
  delta_events (delta [] ∷ rest) = delta_events rest
  delta_events (delta (c ∷ t) ∷ rest) = content_event (c ∷ t) ∷ delta_events rest
  delta_events (citations cs ∷ rest) = delta_events rest
  delta_events (usage u ∷ rest) = delta_events rest
  delta_events (done ∷ rest) = delta_events rest

  -- `_stream`. The response has begun by then, so an exception of the answer only cuts it off.
  unfoldable pub stream_events : Streamed (Frame (Passage num) UsageData) → Streamed Event
  stream_events answer =
      let closing : List Event =
        final_event (citation_payload (citations_of answer.items []))
          (token_counts (usage_of answer.items none))
        ∷ done_event
        ∷ [] in
      record {
        items = role_event ∷ (delta_events answer.items ++ (if answer.raised then [] else closing));
        raised = answer.raised;
      }

module _ {num : Numbers} (settings : Settings) (backends : Backends num) (rounding : Rounding num)
    (available : Bool) (stream_text : StreamText) (id : String) (created : ℕ)
    (request : ChatCompletionRequest) where
  -- The answer from the passages; a search that raises is a server error.
  unfoldable pub respond : Text → Option (List (Passage num)) → Reply Response
  respond query none = server_error
  respond query (some passages) =
      let answer = answer_stream rounding available stream_text query passages in
      if request.stream
      then ok (streamed id created request.model (stream_events answer))
      else whole_reply (complete id created request.model answer)

  unfoldable pub search_and_respond : String → Reply Text → Reply Response
  search_and_respond strategy (http_error status) = http_error status
  search_and_respond strategy server_error = server_error
  search_and_respond strategy (ok query) = respond query (
      hybrid_search num settings backends query (some strategy) none "default" request.document_ids
        [])

  unfoldable pub on_strategy : Reply String → Reply Response
  on_strategy (http_error status) = http_error status
  on_strategy server_error = server_error
  on_strategy (ok strategy) = search_and_respond strategy (query_of request.messages)

  -- The handler.
  unfoldable pub chat_completions : Reply Response
  chat_completions = on_strategy (strategy_for settings.chunk_strategies request.model)
