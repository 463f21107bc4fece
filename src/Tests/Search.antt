-- ===== src/Tests/Search.antt =====
-- A search while the query cannot be embedded.
use mathlib.Core.List.{Memᴰ}
use ragent.Common.{
  ℕ, ◌≤◌, String, ◌≡◌, refl, false, Option, none, some, List, [], ◌∷◌, ◌++◌, map, length, Each,
  sort_by, insert_by,
}
use ragent.Common.Dict
use ragent.Pipeline.Json.{null, str, arr, nil, cons}
use ragent.Ingest.Text.{Text, codes}
use ragent.Db.Chunks.{chunk_row}
use ragent.Db.Targets.{
  collect_targets, chunk_citation_targets, rows_of_chunks, rows_of_chunk, blocks_of_chunk,
  group_by_page, add_to_group, merge_boxes, matches, lexical_search,
}
use ragent.Retrieval.Fusion.{
  hit_of, add_contribution, add_ranking, add_rankings, retriever_count, ranks_before, insert_hit,
  sort_hits, reciprocal_rank_fusion,
}
use ragent.Retrieval.Vectors.{
  Client, FieldCondition, match_any, refused, build_filter, conditions_of,
}
use ragent.Retrieval.Search.{
  Settings, Passage, Backends, dense, lexical, strategy_or, limit_or, payload_filters, passage_of,
  passages_of, fuse, fuse_found, hybrid_search,
}
use ragent.Retrieval.Search.Grounding.{IsGrounded, hybrid_search-IsGrounded}
use ragent.Retrieval.Search.Restriction.{of_documents, found_by, hybrid_search-unrestricted}
use ragent.Tests.Fusion.{numbers}
use ragent.Tests.Db.{tables}

abbrev pub settings : Settings
settings = record {
  chunk_strategies = "layout" ∷ [];
  retrieval_top_k = 50;
  rrf_k = 60;
  rerank_top_n = 8;
}

abbrev client : Client ℕ ℕ ℕ
client = record {
  collection_exists = λ q name. false;
  vector_size = λ q name. 0;
  create_collection = λ q name dims. refused;
  upsert = λ q name points. none;
  query_points = λ q name v limit filters. none;
  delete = λ q name conditions. none;
}

abbrev pub backends : Backends numbers
backends = record {
  Vector = ℕ;
  State = ℕ;
  embed_query = λ query. none;
  client = client;
  qdrant = 0;
  rank = λ query c. some 5;
  tables = some tables;
  tables_after = some tables;
}

abbrev query : Text
query = codes "revenue"

hybrid_search-IsGrounded_example :
    (passages : List (Passage numbers)) × (hybrid_search numbers settings backends query none none
        "acme" [] []
      ≡ some passages)
    × Each
        (IsGrounded numbers tables (
          dense numbers backends query "layout"
            (limit_or numbers none settings)
            (payload_filters numbers "acme" [] [])
          ++ lexical numbers backends query "layout" (limit_or numbers none settings) "acme"))
        passages
    × (length passages ≤ 8)
unfolding strategy_or
hybrid_search-IsGrounded_example =
    hybrid_search-IsGrounded numbers settings backends query none none "acme" [] [] "layout" tables
      refl refl refl

hybrid_search-unrestricted_example :
    (conditions : List FieldCondition) × Memᴰ (of_documents numbers ("other" ∷ [])) conditions
    × (hybrid_search numbers settings backends query none none "acme" ("other" ∷ []) []
        ≡ (elim (strategy_or numbers none settings) [
          | none ↦ none
          | some chosen ↦
              let top_k = limit_or numbers none settings in
              fuse_found numbers settings backends.tables_after
                (found_by numbers backends query chosen top_k conditions)
                (lexical numbers backends query chosen top_k "acme")
        ]))
    × (backends.embed_query query ≡ none
        → hybrid_search numbers settings backends query none none "acme" ("other" ∷ []) []
          ≡ hybrid_search numbers settings backends query none none "acme" [] [])
hybrid_search-unrestricted_example =
    hybrid_search-unrestricted numbers settings backends query none none "acme" "other" [] []

abbrev documents_of : Option (List (Passage numbers)) → List String
documents_of none = []
documents_of (some passages) = map (λ (p : Passage numbers). p.document_id) passages

-- A search in the document "other" finds a passage of the document "doc".
other_document_is_found :
    documents_of (hybrid_search numbers settings backends query none none "acme" ("other" ∷ []) [])
    ≡ "doc" ∷ []
unfolding hybrid_search strategy_or limit_or dense lexical fuse fuse_found lexical_search matches
    reciprocal_rank_fusion add_rankings add_ranking add_contribution hit_of sort_hits insert_hit
    ranks_before retriever_count Dict.get_or Dict.put Dict.get? passages_of passage_of
    chunk_citation_targets collect_targets rows_of_chunks rows_of_chunk blocks_of_chunk
    group_by_page add_to_group merge_boxes sort_by insert_by chunk_row
other_document_is_found = refl

abbrev first_key : Option (List FieldCondition) → Option FieldCondition
first_key none = none
first_key (some []) = none
first_key (some (c ∷ cs)) = some c

null_is_no_condition :
    first_key (build_filter (some (("cik", null) ∷ ("document_id", arr (cons (str "d") nil)) ∷ [])))
    ≡ some (record { key = "document_id"; match_on = match_any (cons (str "d") nil) })
unfolding build_filter conditions_of
null_is_no_condition = refl
