-- ===== src/Providers/Embeddings.antt =====
-- ragent/providers/embeddings.py. The models that embed are parameters: `none` is an exception. A
-- setting's text is lowered by a parameter, as `str.lower` does.
use ragent.Common.{
  ℕ, zero, suc, ◌+◌, String, Bool, Option, none, some, List, [], ◌∷◌, ◌++◌, map, str_eq, ltb,
  if◌then◌else◌, length, sort_by,
}
use ragent.Ingest.Text.{Text}
pub mod Ordering

pub data Embedder : Type 0 where
  local_embedder : Embedder
  voyage_embedder : String → Embedder
  -- the key, the base URL and the model
  openai_embedder : String → String → String → Embedder

pub record Settings : Type 0 where
  pub embedding_backend : String
  pub voyage_api_key : String
  pub openai_api_key : String
  pub openai_base_url : String
  pub openai_embedding_model : String

-- `none` is the RuntimeError for a missing key and the ValueError for an unknown backend.
unfoldable pub get_embedder : (String → String) → Settings → Option Embedder
get_embedder lower s =
    let backend = lower s.embedding_backend in
    if str_eq backend "voyage"
    then if str_eq s.voyage_api_key "" then none else some (voyage_embedder s.voyage_api_key)
    else if str_eq backend "openai"
    then some (
        openai_embedder (if str_eq s.openai_api_key "" then "not-needed" else s.openai_api_key)
          s.openai_base_url s.openai_embedding_model)
    else if str_eq backend "local"
    then some local_embedder
    else none

abbrev pub model_of : Embedder → String
model_of local_embedder = "BAAI/bge-small-en-v1.5"
model_of (voyage_embedder _) = "voyage-3"
model_of (openai_embedder _ _ model) = model

abbrev pub batch_size : ℕ
batch_size = 96

module _ {A : Type 0} where
  abbrev pub take_batch : ℕ → List A → List A
  take_batch zero xs = []
  take_batch (suc n) [] = []
  take_batch (suc n) (x ∷ xs) = x ∷ take_batch n xs

  abbrev pub drop_batch : ℕ → List A → List A
  drop_batch zero xs = xs
  drop_batch (suc n) [] = []
  drop_batch (suc n) (x ∷ xs) = drop_batch n xs

-- An item of a response: its index, and its embedding.
pub record Datum (Vector : Type 0) : Type 0 where
  pub index : ℕ
  pub embedding : Vector

module _ {Vector : Type 0} where
  abbrev pub index_before : Datum Vector → Datum Vector → Bool
  index_before a b = ltb a.index b.index

  -- The vectors of a response in the order of their indices.
  unfoldable pub ordered_vectors : List (Datum Vector) → List Vector
  ordered_vectors data_of = map (λ (d : Datum Vector). d.embedding) (sort_by index_before data_of)

  -- The loop over the batches, with one step of fuel more than there are texts.
  unfoldable pub embed_batches :
      (List Text → Option (List (Datum Vector))) → ℕ → List Text → Option (List Vector)
  embed_batches create zero texts = some []
  embed_batches create (suc fuel) [] = some []
  embed_batches create (suc fuel) (t ∷ rest) =
      let more = embed_batches create fuel (drop_batch batch_size (t ∷ rest)) in
      elim (create (take_batch batch_size (t ∷ rest))) [
        | none ↦ none
        | some items ↦ elim more [ none ↦ none | some vs ↦ some (ordered_vectors items ++ vs) ]
      ]

  -- `OpenAIEmbedder.embed_documents`
  unfoldable pub embed_documents :
      (List Text → Option (List (Datum Vector))) → List Text → Option (List Vector)
  embed_documents create texts = embed_batches create (length texts + 1) texts

  -- `(await self.embed_documents([text]))[0]`
  unfoldable pub embed_query : (List Text → Option (List (Datum Vector))) → Text → Option Vector
  embed_query create text = elim (embed_documents create (text ∷ [])) [
    | none ↦ none
    | some [] ↦ none
    | some (v ∷ _) ↦ some v
  ]
