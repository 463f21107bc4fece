-- ===== src/Tests/Llm.antt =====
-- Which provider is used, what a call costs, and a stream of chunks.
use ragent.Common.{
  true, map, Each, ℕ, ◌≡◌, suc, length, ◌++◌, refl, false, Option, none, some, List, [], ◌∷◌,
  sort_by, insert_by,
}
use ragent.Common.Dict
use ragent.Ingest.Text.{Text, codes}
use ragent.Agent.Answer.{last_usage}
use ragent.Providers.Embeddings.Ordering.{Inserted, Shuffled, numbered, embed_documents-map}
use ragent.Providers.Embeddings.{Datum, embed_documents, embed_batches, ordered_vectors}
use ragent.Providers.Llm.{
  Usage, Streamed, Settings, describe, cost_usd, selected, openai_provider, new_openai,
  select_provider, available,
}
use ragent.Providers.Llm.Calls.{
  usage_of, anthropic_stream, StreamChunk, openai_stream, openai_items, llm_unavailable,
  status_error, openai_complete,
}
use ragent.Providers.Llm.Reading.{items_of, AreCounts, IsDelta, said, joined_texts, stream_text_lem}

abbrev settings : Settings
settings = record {
  llm_provider = "auto";
  anthropic_api_key = "";
  openai_api_key = "";
  openai_base_url = "http://localhost:11434/v1";
  model_synthesis = "claude-sonnet-5";
  model_utility = "claude-haiku-4-5";
  model_vision = "claude-sonnet-5";
  openai_model_synthesis = "llama";
  openai_model_utility = "llama";
  openai_model_vision = "llama";
}

local_endpoint_needs_no_key :
    select_provider settings
    ≡ selected (some (openai_provider "not-needed" "http://localhost:11434/v1"))
unfolding select_provider new_openai
local_endpoint_needs_no_key = refl

anthropic_needs_a_key : available (record settings { llm_provider = "anthropic" }) ≡ false
unfolding available select_provider
anthropic_needs_a_key = refl

abbrev used : Usage
used = record {
  model = "gpt-4o-mini";
  provider = "openai";
  input_tokens = 1000;
  output_tokens = 10;
  latency_ms = 5;
}

small_cost : cost_usd used ≡ 15600
unfolding cost_usd Dict.get_or
small_cost = refl

rejected_is_unavailable : openai_complete "llama" 5 (status_error 404) ≡ llm_unavailable
unfolding openai_complete
rejected_is_unavailable = refl

abbrev chunks : List StreamChunk
chunks =
    record { usage = none; choices = some (codes "Hi") ∷ [] }
    ∷ record { usage = none; choices = none ∷ [] }
    ∷ record { usage = some (7, 2); choices = [] }
    ∷ []

stream_text_lem_example :
    ((sent : Streamed Text)
      → ((counts : ℕ × ℕ)
          → ((anthropic_stream "llama" 5 sent (some counts)).raised ≡ sent.raised)
            × ((anthropic_stream "llama" 5 sent (some counts)).items
                ≡ items_of sent.items sent.raised (usage_of "llama" "anthropic" 5 (some counts))))
        × ((anthropic_stream "llama" 5 sent none).raised ≡ true)
        × ((anthropic_stream "llama" 5 sent none).items ≡ map (λ (t : Text). (t, none)) sent.items))
    × ((sent : Streamed StreamChunk)
        → (deltas : List Text) × (counts : ℕ × ℕ) × AreCounts (0, 0) sent.items counts
          × Each IsDelta deltas
          × (joined_texts deltas ≡ joined_texts (map said sent.items))
          × ((openai_stream "llama" 5 sent).items
              ≡ items_of deltas sent.raised (usage_of "llama" "openai" 5 (some counts)))
          × ((openai_stream "llama" 5 sent).raised ≡ sent.raised))
stream_text_lem_example = stream_text_lem "llama" 5

-- The counts come last, and not at all from a stream that raises.
counts_come_last :
    last_usage (openai_stream "llama" 5 (record { items = chunks; raised = false })).items none
    ≡ some (usage_of "llama" "openai" 5 (some (7, 2)))
unfolding openai_stream openai_items last_usage
counts_come_last = refl

counts_are_lost :
    last_usage (openai_stream "llama" 5 (record { items = chunks; raised = true })).items none
    ≡ none
unfolding openai_stream openai_items last_usage
counts_are_lost = refl

-- An answer falls back to its evidence, and the description raises.
nothing_to_describe : describe (record settings { llm_provider = "anthropic" }) ≡ none
unfolding describe select_provider
nothing_to_describe = refl

abbrev out_of_order : List Text → Option (List (Datum ℕ))
out_of_order texts =
    some (record { index = 1; embedding = 11 } ∷ record { index = 0; embedding = 10 } ∷ [])

-- The index of an item counts, not its position.
vectors_in_order : embed_documents out_of_order (codes "a" ∷ codes "b" ∷ []) ≡ some (10 ∷ 11 ∷ [])
unfolding embed_documents embed_batches ordered_vectors sort_by insert_by
vectors_in_order = refl

-- An endpoint that gives each text its length, the last one first.
abbrev backwards : ℕ → List Text → List (Datum ℕ)
backwards k [] = []
backwards k (t ∷ rest) = backwards (suc k) rest ++ record { index = k; embedding = length t } ∷ []

Inserted-last : (a : Datum ℕ) (xs : List (Datum ℕ)) → Inserted a xs (xs ++ a ∷ [])
Inserted-last a [] = Inserted.here
Inserted-last a (x ∷ rest) = Inserted.there (Inserted-last a rest)

Shuffled-backwards :
    (k : ℕ) (batch : List Text) → Shuffled (numbered (λ t. length t) k batch) (backwards k batch)
Shuffled-backwards k [] = Shuffled.none_left
Shuffled-backwards k (t ∷ rest) =
    Shuffled.put (Shuffled-backwards (suc k) rest) (Inserted-last _ (backwards (suc k) rest))

embed_documents-map_example :
    embed_documents (λ batch. some (backwards 0 batch)) (codes "cat" ∷ codes "a" ∷ [])
    ≡ some (3 ∷ 1 ∷ [])
embed_documents-map_example =
    embed_documents-map (λ t. length t) (λ batch. some (backwards 0 batch))
      (λ batch. (backwards 0 batch, refl, Shuffled-backwards 0 batch))
      (codes "cat" ∷ codes "a" ∷ [])
