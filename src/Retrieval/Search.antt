-- ===== src/Retrieval/Search.antt =====
-- `hybrid_search` of ragent/retrieval/search.py. The embedder and Qdrant are parameters, and `none` is
-- an exception. The two connections that a search acquires see the tables at two times, or fail.
pub mod Grounding
pub mod Restriction
use ragent.Common.{
  ℕ, zero, suc, String, Option, none, some, List, [], ◌∷◌, map, str_eq, if◌then◌else◌,
}
use ragent.Common.Dict
use ragent.Common.Dict.{Dict}
use ragent.Ingest.Text.{Text}
use ragent.Pipeline.Json.{Json, str, arr, Items, nil, cons}
use ragent.Db.Tables.{ChunkRow, Tables}
use ragent.Db.Targets.{Region, Target, chunk_citation_targets, lexical_search}
use ragent.Retrieval.Fusion.{Numbers, FusedHit, reciprocal_rank_fusion}
use ragent.Retrieval.Vectors
use ragent.Retrieval.Vectors.{Client}

-- The settings that a search reads.
pub record Settings : Type 0 where
  pub chunk_strategies : List String
  pub retrieval_top_k : ℕ
  pub rrf_k : ℕ
  pub rerank_top_n : ℕ

module _ (num : Numbers) where
  pub record Passage : Type 0 where
    pub chunk_id : String
    pub text : Text
    pub score : num.Float
    pub document_id : String
    pub document_name : String
    pub provenance : String
    pub section_path : List String
    pub regions : List Region
    pub char_start : Option ℕ
    pub char_end : Option ℕ
    pub retrievers : Dict ℕ

  -- The dictionary of a passage, whose score `round(score, 6)` shortens.
  unfoldable pub to_dict : (num.Float → num.Float) → Passage → Passage
  to_dict round_score p = record p { score = round_score p.score }

  -- What a search depends on: the embedder, Qdrant, the ranking of chunks for a query, and the
  -- tables as the retrieval and the resolution of targets find them.
  pub record Backends : Type 1 where
    pub Vector : Type 0
    pub State : Type 0
    pub embed_query : Text → Option Vector
    pub client : Client State Vector num.Float
    pub qdrant : State
    pub rank : Text → ChunkRow → Option num.Float
    pub tables : Option Tables
    pub tables_after : Option Tables

  abbrev pub ids_of : List (String × num.Float) → List String
  ids_of = map (λ (hit : String × num.Float). hit.0)

  -- An exception is logged, and leaves the other retriever.
  unfoldable pub dense : Backends → Text → String → ℕ → Dict Json → List String
  dense backends query strategy limit filters = elim (backends.embed_query query) [
    | none ↦ []
    | some vector ↦
        elim (Vectors.search backends.client strategy vector limit (some filters) backends.qdrant) [
          | none ↦ []
          | some hits ↦ ids_of hits
        ]
  ]

  unfoldable pub lexical : Backends → Text → String → ℕ → String → List String
  lexical backends query strategy limit tenant_id = elim backends.tables [
    | none ↦ []
    | some db ↦ ids_of (lexical_search num.less (backends.rank query) strategy limit tenant_id db)
  ]

  -- `strategy or settings.chunk_strategies[0]`; `none` is the IndexError.
  abbrev pub first_strategy : List String → Option String
  first_strategy [] = none
  first_strategy (s ∷ rest) = some s

  unfoldable pub strategy_or : Option String → Settings → Option String
  strategy_or none settings = first_strategy settings.chunk_strategies
  strategy_or (some s) settings =
      if str_eq s "" then first_strategy settings.chunk_strategies else some s

  -- `limit or settings.retrieval_top_k`
  unfoldable pub limit_or : Option ℕ → Settings → ℕ
  limit_or none settings = settings.retrieval_top_k
  limit_or (some zero) settings = settings.retrieval_top_k
  limit_or (some (suc n)) settings = suc n

  abbrev pub update : Dict Json → Dict Json → Dict Json
  update d [] = d
  update d ((key, value) ∷ rest) = update (Dict.put d key value) rest

  abbrev pub items_of : List String → Items
  items_of [] = nil
  items_of (s ∷ rest) = cons (str s) (items_of rest)

  unfoldable pub payload_filters : String → List String → Dict Json → Dict Json
  payload_filters tenant_id [] filters = update (("tenant_id", str tenant_id) ∷ []) filters
  payload_filters tenant_id (d ∷ rest) filters =
      Dict.put (update (("tenant_id", str tenant_id) ∷ []) filters) "document_id"
        (arr (items_of (d ∷ rest)))

  -- `target["provenance"] or "paged"`
  abbrev pub provenance_or : Option String → String
  provenance_or none = "paged"
  provenance_or (some p) = if str_eq p "" then "paged" else p

  unfoldable pub passage_of : FusedHit num → Target → Passage
  passage_of hit target = record {
    chunk_id = hit.doc_id;
    text = target.text;
    score = hit.score;
    document_id = target.document_id;
    document_name = target.document_name;
    provenance = provenance_or target.provenance;
    section_path = target.section_path;
    regions = target.regions;
    char_start = target.char_start;
    char_end = target.char_end;
    retrievers = hit.ranks;
  }

  -- The loop over the fused hits; a chunk that has been deleted since is skipped.
  unfoldable pub passages_of : List (FusedHit num) → Dict Target → List Passage
  passages_of [] targets = []
  passages_of (hit ∷ rest) targets =
      let more = passages_of rest targets in
      elim (Dict.get? targets hit.doc_id) [
        | none ↦ more
        | some target ↦ passage_of hit target ∷ more
      ]

  abbrev pub doc_ids : List (FusedHit num) → List String
  doc_ids = map (λ (hit : FusedHit num). hit.doc_id)

  -- The fusion of what the retrievers return, and the targets of its hits.
  unfoldable pub fuse : Settings → Option Tables → List String → List String → Option (List Passage)
  fuse settings tables dense_ids lexical_ids =
      let rankings = ("dense", dense_ids) ∷ ("lexical", lexical_ids) ∷ [] in
      elim (reciprocal_rank_fusion num rankings settings.rrf_k [] (some settings.rerank_top_n)) [
        | none ↦ none
        | some fused ↦ elim tables [
          | none ↦ none
          | some db ↦ some (passages_of fused (chunk_citation_targets (doc_ids fused) db))
        ]
      ]

  -- `if not dense_ids and not lexical_ids: return []`
  unfoldable pub fuse_found :
      Settings → Option Tables → List String → List String → Option (List Passage)
  fuse_found settings tables [] [] = some []
  fuse_found settings tables dense_ids lexical_ids = fuse settings tables dense_ids lexical_ids

  -- `document_ids or []` and `filters or {}`: None and the empty value are one here.
  unfoldable pub hybrid_search :
      Settings
      → Backends
      → Text
      → Option String
      → Option ℕ
      → String
      → List String
      → Dict Json
      → Option (List Passage)
  hybrid_search settings backends query strategy limit tenant_id document_ids filters =
      elim (strategy_or strategy settings) [
        | none ↦ none
        | some chosen ↦
            let top_k = limit_or limit settings in
            let payload = payload_filters tenant_id document_ids filters in
            fuse_found settings backends.tables_after (dense backends query chosen top_k payload)
              (lexical backends query chosen top_k tenant_id)
      ]
