-- ===== src/Retrieval/Search/Grounding.antt =====
-- Where the passages of a search come from.
use ragent.Common.{
  ℕ, ◌≤◌, String, ◌≡◌, refl, ap, inl, inr, true, false, Option, some, List, [], ◌∷◌, ◌++◌, arith,
  eq_refl, ◌==◌, Option-cases, length, Each, contains, contains-append,
}
use ragent.Common.Dict
use ragent.Common.Dict.{Dict}
use mathlib.Core.List.{Memᴰ}
use ragent.Ingest.Text.{Text}
use ragent.Pipeline.Json.{Json}
use ragent.Db.Tables.{Tables}
use ragent.Db.Documents.{find_by_id}
use ragent.Db.Targets.{Target, TargetRow, chunk_citation_targets}
use ragent.Db.Targets.Facts.{chunk_citation_targets_lem}
use ragent.Retrieval.Fusion.{Numbers, FusedHit}
use ragent.Retrieval.Fusion.Sources.{reciprocal_rank_fusion-IsKnown}
use ragent.Retrieval.Search.{
  Settings, Passage, Backends, dense, lexical, strategy_or, limit_or, payload_filters, passage_of,
  passages_of, doc_ids, fuse, fuse_found, hybrid_search,
}

module _ (num : Numbers) where
  -- A passage of a chunk that a retriever has returned and that is stored with its document.
  pub record IsGrounded (db : Tables) (ids : List String) (p : Passage num) : Type 0 where
    pub found : contains ids p.chunk_id ≡ true
    pub row : TargetRow
    pub stored : Memᴰ row.chunk db.chunks
    pub key : row.chunk.id ≡ p.chunk_id
    pub owned : find_by_id db.documents row.chunk.document_id ≡ some row.document
    pub text : p.text ≡ row.chunk.text
    pub document_id : p.document_id ≡ row.document.id
    pub document_name : p.document_name ≡ row.document.original_name
    pub char_start : p.char_start ≡ row.chunk.char_start
    pub char_end : p.char_end ≡ row.chunk.char_end

  passage_of-IsGrounded :
      (db : Tables) (ids asked : List String) (hit : FusedHit num) (t : Target)
      → contains ids hit.doc_id ≡ true
      → Dict.get? (chunk_citation_targets asked db) hit.doc_id ≡ some t
      → IsGrounded db ids (passage_of num hit t)
  unfolding passage_of
  passage_of-IsGrounded db ids asked hit t found e =
      let (r, ok, key, from) = (chunk_citation_targets_lem db asked).0 hit.doc_id t e in
      record {
        found = found;
        row = r;
        stored = ok.stored;
        key = key;
        owned = ok.owned;
        text = ap (λ (k : Target). k.text) from;
        document_id = ap (λ (k : Target). k.document_id) from;
        document_name = ap (λ (k : Target). k.document_name) from;
        char_start = ap (λ (k : Target). k.char_start) from;
        char_end = ap (λ (k : Target). k.char_end) from;
      }

  passages_of-IsGrounded :
      (db : Tables) (ids asked : List String) (hits : List (FusedHit num))
      → Each (λ (h : FusedHit num). contains ids h.doc_id ≡ true) hits
      → Each (IsGrounded db ids) (passages_of num hits (chunk_citation_targets asked db))
        × (length (passages_of num hits (chunk_citation_targets asked db)) ≤ length hits)
  unfolding passages_of
  passages_of-IsGrounded db ids asked [] known = (tt, omega arith)
  passages_of-IsGrounded db ids asked (h ∷ rest) (first, known) =
      let (more, short) = passages_of-IsGrounded db ids asked rest known in
      elim (Option-cases (Dict.get? (chunk_citation_targets asked db) h.doc_id)) [
        | inl deleted ↦ rw (deleted, passages_of) (more, omega (arith, short))
        | inr (t, e) ↦
            rw (e, passages_of)
              ((passage_of-IsGrounded db ids asked h t first e, more), omega (arith, short))
      ]

  abbrev IsAnswer : Settings → Tables → List String → Option (List (Passage num)) → Type 0
  IsAnswer settings db ids result =
      (passages : List (Passage num)) × (result ≡ some passages)
      × Each (IsGrounded db ids) passages
      × (length passages ≤ settings.rerank_top_n)

  known_in :
      (ids zs : List String)
      → ((d : String) → contains zs d ≡ true → contains ids d ≡ true)
      → Each (λ d. contains ids d ≡ true) zs
  known_in ids [] h = tt
  known_in ids (z ∷ zs) h =
      (h z (ground (arith, eq_refl z)), known_in ids zs (λ d m. h d (ground (arith))))

  fuse-IsAnswer :
      (settings : Settings) (db : Tables) (dense_ids lexical_ids : List String)
      → (settings.rrf_k == 0) ≡ false
      → IsAnswer settings db
          (dense_ids ++ lexical_ids)
          (fuse num settings (some db) dense_ids lexical_ids)
  unfolding fuse
  fuse-IsAnswer settings db dense_ids lexical_ids positive =
      let ids = dense_ids ++ lexical_ids in
      let (hits, e, known, short) =
        reciprocal_rank_fusion-IsKnown num (λ d. contains ids d ≡ true)
          (("dense", dense_ids) ∷ ("lexical", lexical_ids) ∷ []) settings.rrf_k []
          settings.rerank_top_n positive
          (
            known_in ids dense_ids (λ d m. ground (arith, contains-append dense_ids lexical_ids d)),
            (
              known_in ids lexical_ids
                  (λ d m. ground (arith, contains-append dense_ids lexical_ids d)),
              tt,
            ),
          ) in
      let (grounded, fewer) = passages_of-IsGrounded db ids (doc_ids num hits) hits known in
      (
        passages_of num hits (chunk_citation_targets (doc_ids num hits) db),
        rw (e, fuse) refl,
        grounded,
        omega (arith, short, fewer),
      )

  fuse_found-IsAnswer :
      (settings : Settings) (db : Tables) (dense_ids lexical_ids : List String)
      → (settings.rrf_k == 0) ≡ false
      → IsAnswer settings db
          (dense_ids ++ lexical_ids)
          (fuse_found num settings (some db) dense_ids lexical_ids)
  unfolding fuse_found
  fuse_found-IsAnswer settings db [] [] positive = ([], refl, tt, omega arith)
  fuse_found-IsAnswer settings db [] (d ∷ rest) positive =
      fuse-IsAnswer settings db [] (d ∷ rest) positive
  fuse_found-IsAnswer settings db (d ∷ rest) lexical_ids positive =
      fuse-IsAnswer settings db (d ∷ rest) lexical_ids positive

-- What a search returns is grounded. Where the settings name a strategy or the caller does, `rrf_k`
-- is not 0 and the tables can be read when the targets are resolved, `hybrid_search` returns at most
-- `rerank_top_n` passages, whichever of the retrievers has failed. Each is of a chunk that one of the
-- retrievers returned for the query and that is stored then; its text and its place are the chunk's,
-- and its document is the one that the chunk belongs to.
pub hybrid_search-IsGrounded :
    (num : Numbers) (settings : Settings) (backends : Backends num) (query : Text)
    (strategy : Option String) (limit : Option ℕ) (tenant_id : String) (document_ids : List String)
    (filters : Dict Json) (chosen : String) (db : Tables)
    → strategy_or num strategy settings ≡ some chosen
    → backends.tables_after ≡ some db
    → (settings.rrf_k == 0) ≡ false
    → (passages : List (Passage num)) × (hybrid_search num settings backends query strategy limit
          tenant_id document_ids filters
        ≡ some passages)
      × Each
          (IsGrounded num db (
            dense num backends query chosen
              (limit_or num limit settings)
              (payload_filters num tenant_id document_ids filters)
            ++ lexical num backends query chosen (limit_or num limit settings) tenant_id))
          passages
      × (length passages ≤ settings.rerank_top_n)
unfolding hybrid_search dense lexical
hybrid_search-IsGrounded num settings backends query strategy limit tenant_id document_ids filters
      chosen db named stored positive =
    let dense_ids =
      dense num backends query chosen (limit_or num limit settings)
        (payload_filters num tenant_id document_ids filters) in
    let lexical_ids = lexical num backends query chosen (limit_or num limit settings) tenant_id in
    let (passages, e, grounded, short) =
      fuse_found-IsAnswer num settings db dense_ids lexical_ids positive in
    (passages, rw (named, hybrid_search) (rw stored e), grounded, short)
