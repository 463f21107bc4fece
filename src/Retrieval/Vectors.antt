-- ===== src/Retrieval/Vectors.antt =====
-- ragent/retrieval/vectors.py: the calls that are made of Qdrant. The client is a parameter, whose
-- calls may raise.
use ragent.Common.{ℕ, String, Bool, Option, none, some, List, [], ◌∷◌, ◌++◌, ◌==◌, if◌then◌else◌}
use ragent.Common.Dict.{Dict}
use ragent.Ingest.Text.{Text, codes}
use ragent.Pipeline.Json.{Json, null, str, arr, Items}

-- f"ragent_{strategy}"
unfoldable pub collection_for : String → Text
collection_for strategy = codes "ragent_" ++ codes strategy

-- `MatchAny` and `MatchValue`.
pub data Match : Type 0 where
  match_any : Items → Match
  match_value : Json → Match

pub record FieldCondition : Type 0 where
  pub key : String
  pub match_on : Match

abbrev pub match_of : Json → Match
match_of (arr values) = match_any values
match_of value = match_value value

unfoldable pub conditions_of : Dict Json → List FieldCondition
conditions_of [] = []
conditions_of ((key, null) ∷ rest) = conditions_of rest
conditions_of ((key, value) ∷ rest) =
    record { key = key; match_on = match_of value } ∷ conditions_of rest

-- `none` is no filter at all.
unfoldable pub build_filter : Option (Dict Json) → Option (List FieldCondition)
build_filter none = none
build_filter (some filters) = elim (conditions_of filters) [
  | [] ↦ none
  | ◌∷◌ c (cs → _) ↦ some (c ∷ cs)
]

-- The outcome of `create_collection`: the new state, a 409, or another failure.
pub data Creation (State : Type 0) : Type 0 where
  created : State → Creation State
  conflict : Creation State
  refused : Creation State

-- A point with its vector and payload.
pub record Point (Vector : Type 0) : Type 0 where
  pub id : String
  pub vector : Vector
  pub payload : Dict Json

-- What the module uses of `AsyncQdrantClient`. `none` is an exception.
pub record Client (State Vector Float : Type 0) : Type 0 where
  pub collection_exists : State → Text → Bool
  pub vector_size : State → Text → ℕ
  pub create_collection : State → Text → ℕ → Creation State
  pub upsert : State → Text → List (Point Vector) → Option State
  pub query_points :
      State → Text → Vector → ℕ → Option (List FieldCondition) → Option (List (String × Float))
  pub delete : State → Text → List FieldCondition → Option State

-- `DimensionMismatch`, and what Qdrant refuses.
pub data Failure : Type 0 where
  dimension_mismatch : ℕ → ℕ → Failure
  unexpected_response : Failure

pub data Outcome (State : Type 0) : Type 0 where
  returned : State → Outcome State
  raised : Failure → Outcome State

module _ {State Vector Float : Type 0} (client : Client State Vector Float) where
  unfoldable pub ensure_collection : String → ℕ → State → Outcome State
  ensure_collection strategy dims q =
      let name = collection_for strategy in
      let existing = client.vector_size q name in
      let made : Outcome State = elim (client.create_collection q name dims) [
        | created q' ↦ returned q'
        | conflict ↦ returned q
        | refused ↦ raised unexpected_response
      ] in
      if client.collection_exists q name
      then if existing == dims then returned q else raised (dimension_mismatch existing dims)
      else made

  -- `zip(..., strict=True)`, which raises where the lengths differ.
  unfoldable pub points_of :
      List String → List Vector → List (Dict Json) → Option (List (Point Vector))
  points_of [] [] [] = some []
  points_of (cid ∷ ids) (v ∷ vectors) (p ∷ payloads) = elim (points_of ids vectors payloads) [
    | none ↦ none
    | some points ↦ some (record { id = cid; vector = v; payload = p } ∷ points)
  ]
  points_of _ _ _ = none

  unfoldable pub upsert_chunks :
      String → List String → List Vector → List (Dict Json) → State → Option State
  upsert_chunks strategy [] vectors payloads q = some q
  upsert_chunks strategy (cid ∷ ids) vectors payloads q =
      elim (points_of (cid ∷ ids) vectors payloads) [
        | none ↦ none
        | some points ↦ client.upsert q (collection_for strategy) points
      ]

  unfoldable pub search :
      String → Vector → ℕ → Option (Dict Json) → State → Option (List (String × Float))
  search strategy vector limit filters q =
      client.query_points q (collection_for strategy) vector limit (build_filter filters)

  unfoldable pub delete_document : String → String → State → Option State
  delete_document strategy document_id q =
      let name = collection_for strategy in
      let condition : FieldCondition = record {
        key = "document_id";
        match_on = match_value (str document_id);
      } in
      if client.collection_exists q name then client.delete q name (condition ∷ []) else some q
