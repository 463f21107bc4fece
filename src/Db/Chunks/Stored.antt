-- ===== src/Db/Chunks/Stored.antt =====
-- The rows of replaced chunks.
use ragent.Common.{
  ℕ, ◌+◌, ◌<◌, String, ◌≡◌, refl, ap, ◌∙◌, Bool, true, false, ◌&&◌, not, List, [], ◌∷◌, ◌++◌, map,
  arith, str_eq, eq_iff, eq_refl, ◌==◌, if◌then◌else◌, filter, all, contains, distinct, sort_by,
  InOrder, sort_by-InOrder,
}
use ragent.Ingest.Types.{Chunk}
use ragent.Ingest.Chunking.Assembly.{Numbered}
use ragent.Db.Tables.{ChunkRow, Tables, Link}
use ragent.Db.Chunks.{
  contains_nat, distinct_nat, with_ids, chunk_ids_of, chunk_row, is_chunk_of, chunk_keys,
  delete_chunks, chunk_before, load_chunks,
}

filter-append :
    (p : ChunkRow → Bool) (xs ys : List ChunkRow) → filter p (xs ++ ys) ≡ filter p xs ++ filter p ys
filter-append p [] ys = refl
filter-append p (x ∷ xs) ys = ground (arith, filter-append p xs ys)

pub append_nil : (xs : List ChunkRow) → xs ++ [] ≡ xs
append_nil [] = refl
append_nil (x ∷ xs) = ap (λ ys. x ∷ ys) (append_nil xs)

module _ (fresh : ℕ → String) where
  module _ (once : (m n : ℕ) → str_eq (fresh m) (fresh n) ≡ (m == n)) where
    contains-with_ids :
        (m n : ℕ) (chunks : List Chunk)
        → n < m
        → contains (chunk_ids_of (with_ids fresh m chunks)) (fresh n) ≡ false
    unfolding with_ids
    contains-with_ids m n [] lt = refl
    contains-with_ids m n (c ∷ rest) lt =
        ground (arith, once m n, contains-with_ids (m + 1) n rest (omega arith))

    pub distinct-with_ids :
        (n : ℕ) (chunks : List Chunk) → distinct (chunk_ids_of (with_ids fresh n chunks)) ≡ true
    unfolding with_ids
    distinct-with_ids n [] = refl
    distinct-with_ids n (c ∷ rest) =
        rw (contains-with_ids (n + 1) n rest (omega arith)) (distinct-with_ids (n + 1) rest)

  pub absent-with_ids :
      (taken : List String) (n : ℕ) (chunks : List Chunk)
      → ((k : ℕ) → contains taken (fresh k) ≡ false)
      → all (λ id. not (contains taken id)) (chunk_ids_of (with_ids fresh n chunks)) ≡ true
  unfolding with_ids
  absent-with_ids taken n [] new = refl
  absent-with_ids taken n (c ∷ rest) new = rw (new n) (absent-with_ids taken (n + 1) rest new)

  abbrev seqs : ℕ → List Chunk → List ℕ
  seqs n chunks = map (λ (p : String × Chunk). p.1.seq) (with_ids fresh n chunks)

  contains-seqs :
      (k m n : ℕ) (chunks : List Chunk)
      → Numbered m chunks
      → k < m
      → contains_nat (seqs n chunks) k ≡ false
  unfolding with_ids
  contains-seqs k m n [] h lt = refl
  contains-seqs k m n (c ∷ rest) (e, h) lt =
      ground (arith, contains-seqs k (m + 1) (n + 1) rest h (omega arith))

  -- Numbered chunks do not meet the unique key.
  pub distinct-seqs :
      (m n : ℕ) (chunks : List Chunk) → Numbered m chunks → distinct_nat (seqs n chunks) ≡ true
  unfolding with_ids
  distinct-seqs m n [] h = refl
  distinct-seqs m n (c ∷ rest) (e, h) =
      rw (contains-seqs c.seq (m + 1) (n + 1) rest h (omega (arith, e)))
        (distinct-seqs (m + 1) (n + 1) rest h)

  module _ (document_id strategy : String) where
    abbrev pub new_rows : ℕ → List Chunk → List ChunkRow
    new_rows n chunks = map (chunk_row document_id strategy) (with_ids fresh n chunks)

    filter-new_rows :
        (n : ℕ) (chunks : List Chunk) (d s : String)
        → filter (is_chunk_of d s) (new_rows n chunks)
          ≡ (if str_eq document_id d && str_eq strategy s then new_rows n chunks else [])
    unfolding with_ids chunk_row
    filter-new_rows n [] d s = ground arith
    filter-new_rows n (c ∷ rest) d s = ground (arith, filter-new_rows (n + 1) rest d s)

    new_rows-InOrder :
        (m n : ℕ) (chunks : List Chunk)
        → Numbered m chunks
        → InOrder chunk_before (new_rows n chunks)
    unfolding with_ids chunk_row
    new_rows-InOrder m n [] h = tt
    new_rows-InOrder m n (c ∷ []) h = tt
    new_rows-InOrder m n (c ∷ d ∷ rest) (e, h) =
        (ground (arith, e, h.0), new_rows-InOrder (m + 1) (n + 1) (d ∷ rest) h)

    filter-kept :
        (rows : List ChunkRow) (d s : String)
        → filter (is_chunk_of d s) (filter (λ r. not (is_chunk_of document_id strategy r)) rows) ≡ (
            if str_eq document_id d && str_eq strategy s then [] else filter (is_chunk_of d s) rows)
    filter-kept [] d s = ground arith
    filter-kept (r ∷ rest) d s = ground (
      arith,
      eq_iff r.document_id document_id,
      eq_iff r.document_id d,
      eq_iff document_id d,
      eq_iff r.strategy strategy,
      eq_iff r.strategy s,
      eq_iff strategy s,
      filter-kept rest d s,
    )

    -- After the chunks have been replaced, they are read in their order, and no others.
    pub load_chunks-new :
        (chunks : List Chunk) (db : Tables) (links : List Link)
        → Numbered 0 chunks
        → load_chunks document_id strategy (record (delete_chunks document_id strategy db) {
          chunks = (delete_chunks document_id strategy db).chunks ++ new_rows 0 chunks;
          chunk_blocks = links;
        })
          ≡ new_rows 0 chunks
    unfolding load_chunks delete_chunks
    load_chunks-new chunks db links h =
        let kept = filter (λ r. not (is_chunk_of document_id strategy r)) db.chunks in
        let rows : filter (is_chunk_of document_id strategy) (kept ++ new_rows 0 chunks)
            ≡ new_rows 0 chunks =
          filter-append (is_chunk_of document_id strategy) kept (new_rows 0 chunks)
          ∙ rw
              (
                filter-kept db.chunks document_id strategy,
                filter-new_rows 0 chunks document_id strategy,
                eq_refl document_id,
                eq_refl strategy,
              )
              refl in
        ap (sort_by chunk_before) rows
        ∙ sort_by-InOrder chunk_before (new_rows 0 chunks) (new_rows-InOrder 0 0 chunks h)

    pub load_chunks-other :
        (chunks : List Chunk) (db : Tables) (links : List Link) (d s : String)
        → (str_eq document_id d && str_eq strategy s) ≡ false
        → load_chunks d s (record (delete_chunks document_id strategy db) {
          chunks = (delete_chunks document_id strategy db).chunks ++ new_rows 0 chunks;
          chunk_blocks = links;
        })
          ≡ load_chunks d s db
    unfolding load_chunks delete_chunks
    load_chunks-other chunks db links d s other =
        let kept = filter (λ r. not (is_chunk_of document_id strategy r)) db.chunks in
        let rows : filter (is_chunk_of d s) (kept ++ new_rows 0 chunks)
            ≡ filter (is_chunk_of d s) db.chunks =
          filter-append (is_chunk_of d s) kept (new_rows 0 chunks)
          ∙ rw (filter-kept db.chunks d s, filter-new_rows 0 chunks d s, other)
              (append_nil (filter (is_chunk_of d s) db.chunks)) in
        ap (sort_by chunk_before) rows

pub keys_absent :
    (p : ChunkRow → Bool) (rows : List ChunkRow) (id : String)
    → contains (chunk_keys rows) id ≡ false
    → contains (chunk_keys (filter p rows)) id ≡ false
keys_absent p [] id h = refl
keys_absent p (r ∷ rest) id h = ground (arith, keys_absent p rest id)
