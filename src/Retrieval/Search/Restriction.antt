-- ===== src/Retrieval/Search/Restriction.antt =====
-- What a restriction to documents restricts.
use mathlib.Core.List.{Memᴰ}
use ragent.Common.{
  ℕ, String, ◌≡◌, refl, ap, inl, inr, Bool-cases, Option, none, some, List, [], ◌∷◌, str_eq,
  Option-cases,
}
use ragent.Common.Dict
use ragent.Common.Dict.{Dict}
use ragent.Ingest.Text.{Text}
use ragent.Pipeline.Json.{Json, null, bool, int, negative, float, str, arr, obj}
use ragent.Retrieval.Fusion.{Numbers}
use ragent.Retrieval.Vectors.{
  FieldCondition, match_any, conditions_of, build_filter, collection_for, search,
}
use ragent.Retrieval.Search.{
  update, items_of, ids_of, fuse_found, lexical, Settings, Backends, dense, strategy_or, limit_or,
  payload_filters, hybrid_search,
}

dense-down :
    (num : Numbers) (backends : Backends num) (query : Text) (strategy : String) (limit : ℕ)
    (filters : Dict Json)
    → backends.embed_query query ≡ none
    → dense num backends query strategy limit filters ≡ []
unfolding dense
dense-down num backends query strategy limit filters down = rw (down, dense) refl

-- While the query cannot be embedded, no restriction makes a difference.
same_while_down :
    (num : Numbers) (settings : Settings) (backends : Backends num) (query : Text)
    (strategy : Option String) (limit : Option ℕ) (tenant_id : String) (document_ids : List String)
    (filters : Dict Json)
    → backends.embed_query query ≡ none
    → hybrid_search num settings backends query strategy limit tenant_id document_ids filters
      ≡ hybrid_search num settings backends query strategy limit tenant_id [] []
unfolding hybrid_search
same_while_down num settings backends query strategy limit tenant_id document_ids filters down =
    elim (Option-cases (strategy_or num strategy settings)) [
      | inl unnamed ↦ rw (unnamed, hybrid_search) refl
      | inr (chosen, named) ↦
          let top_k = limit_or num limit settings in
          rw (named, hybrid_search)
            (rw
              (
                dense-down num backends query chosen top_k
                    (payload_filters num tenant_id document_ids filters) down,
                dense-down num backends query chosen top_k (payload_filters num tenant_id [] [])
                    down,
              )
              refl)
    ]

built :
    (conditions : List FieldCondition) {c : FieldCondition}
    → Memᴰ c conditions
    → (filters : Dict Json) → conditions_of filters ≡ conditions
    → build_filter (some filters) ≡ some conditions
unfolding build_filter
built [] m filters e = elim m [ ]
built (x ∷ rest) m filters e = rw (e, build_filter) refl

module _ (num : Numbers) where
  -- The condition that a point is of one of some documents.
  abbrev pub of_documents : List String → FieldCondition
  of_documents ids = record { key = "document_id"; match_on = match_any (items_of num ids) }

  -- A condition is built for a list that is put in a dictionary.
  mem-conditions_of :
      (d : Dict Json) (ids : List String)
      → Memᴰ (of_documents ids) (conditions_of (Dict.put d "document_id" (arr (items_of num ids))))
  unfolding conditions_of Dict.put
  mem-conditions_of [] ids = Memᴰ.head refl
  mem-conditions_of ((k, v) ∷ rest) ids = elim (Bool-cases (str_eq k "document_id")) [
    | inl here ↦ rw here (Memᴰ.head refl)
    | inr other ↦ rw other (behind v (mem-conditions_of rest ids))
  ]
    where
      behind :
          (value : Json)
          → Memᴰ
              (of_documents ids)
              (conditions_of (Dict.put rest "document_id" (arr (items_of num ids))))
          → Memᴰ
              (of_documents ids)
              (conditions_of ((k, value) ∷ Dict.put rest "document_id" (arr (items_of num ids))))
      behind null m = m
      behind (bool _) m = Memᴰ.tail m
      behind (int _) m = Memᴰ.tail m
      behind (negative _) m = Memᴰ.tail m
      behind (float _) m = Memᴰ.tail m
      behind (str _) m = Memᴰ.tail m
      behind (arr _) m = Memᴰ.tail m
      behind (obj _) m = Memᴰ.tail m

  -- What Qdrant finds for the query among the points that satisfy some conditions.
  abbrev pub found_by : Backends num → Text → String → ℕ → List FieldCondition → List String
  found_by backends query strategy limit conditions = elim (backends.embed_query query) [
    | none ↦ []
    | some vector ↦
        elim (backends.client.query_points backends.qdrant (collection_for strategy) vector limit
          (some conditions)) [ none ↦ [] | some hits ↦ ids_of num hits ]
  ]

  dense-found_by :
      (backends : Backends num) (query : Text) (strategy : String) (limit : ℕ) (filters : Dict Json)
      (conditions : List FieldCondition)
      → build_filter (some filters) ≡ some conditions
      → dense num backends query strategy limit filters
        ≡ found_by backends query strategy limit conditions
  unfolding dense search
  dense-found_by backends query strategy limit filters conditions e =
      elim (Option-cases (backends.embed_query query)) [
        | inl down ↦ rw (down, dense) rw (down, found_by) refl
        | inr (vector, up) ↦ rw (up, dense) rw (up, found_by) rw (e, search) refl
      ]

  -- A restriction to documents restricts the dense retriever, and it alone. What `hybrid_search`
  -- fuses for a restriction is what Qdrant finds under conditions, one of which is that the point is
  -- of one of these documents, and what the lexical search finds without it. So while the query
  -- cannot be embedded, the restricted search returns the same as the one without a restriction and
  -- without other filters.
  pub hybrid_search-unrestricted :
      (settings : Settings) (backends : Backends num) (query : Text) (strategy : Option String)
      (limit : Option ℕ) (tenant_id document_id : String) (others : List String)
      (filters : Dict Json)
      → (conditions : List FieldCondition) × Memᴰ (of_documents (document_id ∷ others)) conditions
        × (hybrid_search num settings backends query strategy limit tenant_id
              (document_id ∷ others)
              filters
            ≡ (elim (strategy_or num strategy settings) [
              | none ↦ none
              | some chosen ↦
                  let top_k = limit_or num limit settings in
                  fuse_found num settings backends.tables_after
                    (found_by backends query chosen top_k conditions)
                    (lexical num backends query chosen top_k tenant_id)
            ]))
        × (backends.embed_query query ≡ none
            → hybrid_search num settings backends query strategy limit tenant_id
                (document_id ∷ others)
                filters
              ≡ hybrid_search num settings backends query strategy limit tenant_id [] [])
  unfolding hybrid_search payload_filters
  hybrid_search-unrestricted settings backends query strategy limit tenant_id document_id others
        filters =
      let base = update num (("tenant_id", str tenant_id) ∷ []) filters in
      let payload = Dict.put base "document_id" (arr (items_of num (document_id ∷ others))) in
      let member = mem-conditions_of base (document_id ∷ others) in
      let filtered = built (conditions_of payload) member payload refl in
      (
        conditions_of payload,
        member,
        elim (Option-cases (strategy_or num strategy settings)) [
          | inl unnamed ↦ rw (unnamed, hybrid_search) refl
          | inr (chosen, named) ↦
              rw (named, hybrid_search)
                (ap
                  (λ ids.
                    fuse_found num settings backends.tables_after ids
                      (lexical num backends query chosen (limit_or num limit settings) tenant_id))
                  (dense-found_by backends query chosen (limit_or num limit settings) payload
                    (conditions_of payload) filtered))
        ],
        λ down.
            same_while_down num settings backends query strategy limit tenant_id
              (document_id ∷ others) filters down,
      )
