-- ===== src/Db/Targets/Facts.antt =====
-- `chunk_citation_targets`: what is asked for is found, comes from the tables, and covers the blocks.
use ragent.Common.{
  ℕ, String, ◌≡◌, refl, sym, ap, ◌∙◌, subst, inl, inr, true, false, Option, none, some, List, [],
  ◌∷◌, ◌++◌, map, eq_refl, Bool-cases, Option-cases, any, Each, Each-append, contains, sort_by,
  mem-sort_by, mem-filter_of_mem, Each-sort_by,
}
use ragent.Common.Dict
use mathlib.Core.List.{Memᴰ}
use ragent.Ingest.Types.{BBox, is_none}
use ragent.Db.Tables.{DocumentRow, BlockRow, ChunkRow, Tables}
use ragent.Db.Documents.{find_by_id}
use ragent.Db.Targets.{
  Target, Group, TargetRow, group_by_page, is_linked, blocks_of_chunk, or_null_row, rows_of_chunk,
  rows_of_chunks, target_before, chunk_citation_targets,
}
use ragent.Db.Targets.Regions.{group_by_page-Covers}
use ragent.Db.Targets.Collected.{
  collect_one, get?-collect_targets, HasRegion, collect_one-new, collect_one-some, IsFrom, FromRow,
  collect_one-FromRow,
}

-- A row of the query for a chunk that is stored and asked for, with its own document.
pub record IsRow (db : Tables) (chunk_ids : List String) (r : TargetRow) : Type 0 where
  pub stored : Memᴰ r.chunk db.chunks
  pub asked : contains chunk_ids r.chunk.id ≡ true
  pub owned : find_by_id db.documents r.chunk.document_id ≡ some r.document

abbrev row_at : ChunkRow → DocumentRow → Group → TargetRow
row_at c d g = record { chunk = c; document = d; group = g }

module _ (db : Tables) (chunk_ids : List String) where
  rows_of_chunk-IsRow :
      (c : ChunkRow)
      → Memᴰ c db.chunks
      → contains chunk_ids c.id ≡ true
      → Each (IsRow db chunk_ids) (rows_of_chunk db c)
  unfolding rows_of_chunk
  rows_of_chunk-IsRow c stored asked = elim (Option-cases (find_by_id db.documents c.document_id)) [
    | inl unknown ↦ rw (unknown, rows_of_chunk) tt
    | inr (d, e) ↦
        rw (e, rows_of_chunk) (each d e (or_null_row (group_by_page (blocks_of_chunk db c.id) [])))
  ]
    where
      each :
          (d : DocumentRow)
          → find_by_id db.documents c.document_id ≡ some d
          → (groups : List Group) → Each (IsRow db chunk_ids) (map (row_at c d) groups)
      each d e [] = tt
      each d e (g ∷ rest) = (record { stored = stored; asked = asked; owned = e }, each d e rest)

  rows_of_chunks-IsRow :
      (chunks : List ChunkRow)
      → ((c : ChunkRow) → Memᴰ c chunks → Memᴰ c db.chunks)
      → Each (IsRow db chunk_ids) (rows_of_chunks db chunk_ids chunks)
  unfolding rows_of_chunks
  rows_of_chunks-IsRow [] sub = tt
  rows_of_chunks-IsRow (c ∷ rest) sub =
      let more = rows_of_chunks-IsRow rest (λ k m. sub k (Memᴰ.tail m)) in
      elim (Bool-cases (contains chunk_ids c.id)) [
        | inr other ↦ rw other more
        | inl asked ↦ rw asked (
            Each-append (IsRow db chunk_ids) (rows_of_chunk db c) (rows_of_chunks db chunk_ids rest)
              (rows_of_chunk-IsRow c (sub c (Memᴰ.head refl)) asked, more))
      ]

  mem_left : (r : TargetRow) (xs ys : List TargetRow) → Memᴰ r xs → Memᴰ r (xs ++ ys)
  mem_left r [] ys m = elim m [ ]
  mem_left r (x ∷ xs) ys (Memᴰ.head e) = Memᴰ.head e
  mem_left r (x ∷ xs) ys (Memᴰ.tail m) = Memᴰ.tail (mem_left r xs ys m)

  mem_right : (r : TargetRow) (xs ys : List TargetRow) → Memᴰ r ys → Memᴰ r (xs ++ ys)
  mem_right r [] ys m = m
  mem_right r (x ∷ xs) ys m = Memᴰ.tail (mem_right r xs ys m)

  mem-rows_of_chunks :
      (chunks : List ChunkRow) (c : ChunkRow) (r : TargetRow)
      → Memᴰ c chunks
      → contains chunk_ids c.id ≡ true
      → Memᴰ r (rows_of_chunk db c)
      → Memᴰ r (rows_of_chunks db chunk_ids chunks)
  unfolding rows_of_chunks
  mem-rows_of_chunks [] c r m asked here = elim m [ ]
  mem-rows_of_chunks (k ∷ rest) c r (Memᴰ.head e) asked here =
      let at = sym (ap (λ (x : ChunkRow). contains chunk_ids x.id) e) ∙ asked in
      rw at (
        mem_left r (rows_of_chunk db k) (rows_of_chunks db chunk_ids rest)
          (subst (λ (x : ChunkRow). Memᴰ r (rows_of_chunk db x)) e here))
  mem-rows_of_chunks (k ∷ rest) c r (Memᴰ.tail m) asked here =
      let later = mem-rows_of_chunks rest c r m asked here in
      elim (Bool-cases (contains chunk_ids k.id)) [
        | inr other ↦ rw other later
        | inl at ↦ rw at (mem_right r (rows_of_chunk db k) (rows_of_chunks db chunk_ids rest) later)
      ]

  -- The rows of a chunk whose document is known.
  rows_known :
      (c : ChunkRow) (d : DocumentRow)
      → find_by_id db.documents c.document_id ≡ some d
      → rows_of_chunk db c
        ≡ map (row_at c d) (or_null_row (group_by_page (blocks_of_chunk db c.id) []))
  unfolding rows_of_chunk group_by_page
  rows_known c d e = rw (e, rows_of_chunk) refl

  mem_group :
      (c : ChunkRow) (d : DocumentRow) (groups : List Group) (g : Group)
      → Memᴰ g groups
      → Memᴰ (row_at c d g) (map (row_at c d) groups)
  mem_group c d [] g m = elim m [ ]
  mem_group c d (k ∷ rest) g (Memᴰ.head e) = Memᴰ.head (ap (row_at c d) e)
  mem_group c d (k ∷ rest) g (Memᴰ.tail m) = Memᴰ.tail (mem_group c d rest g m)

  mem-or_null_row : (groups : List Group) (g : Group) → Memᴰ g groups → Memᴰ g (or_null_row groups)
  mem-or_null_row [] g m = elim m [ ]
  mem-or_null_row (k ∷ rest) g m = m

  some_group : (groups : List Group) → (g : Group) × Memᴰ g (or_null_row groups)
  some_group [] = (record { page_no = none; bbox = none }, Memᴰ.head refl)
  some_group (g ∷ rest) = (g, Memᴰ.head refl)

  abbrev rows : List TargetRow
  rows = sort_by target_before (rows_of_chunks db chunk_ids db.chunks)

  abbrev target_of : String → Option Target
  target_of cid = Dict.get? (chunk_citation_targets chunk_ids db) cid

  rows_lem : (cid : String) → target_of cid ≡ collect_one cid rows none
  unfolding chunk_citation_targets Dict.get?
  rows_lem cid = get?-collect_targets rows [] cid

  mem_row :
      (c : ChunkRow) (d : DocumentRow) (g : Group)
      → Memᴰ c db.chunks
      → contains chunk_ids c.id ≡ true
      → find_by_id db.documents c.document_id ≡ some d
      → Memᴰ g (or_null_row (group_by_page (blocks_of_chunk db c.id) []))
      → Memᴰ (row_at c d g) rows
  mem_row c d g stored asked e m =
      let r = row_at c d g in
      mem-sort_by target_before (rows_of_chunks db chunk_ids db.chunks) r (
        mem-rows_of_chunks db.chunks c r stored asked (
          subst (λ rs. Memᴰ r rs) (sym (rows_known c d e))
            (mem_group c d (or_null_row (group_by_page (blocks_of_chunk db c.id) [])) g m)))

  mem-blocks_of_chunk :
      (cid : String) (b : BlockRow)
      → Memᴰ b db.blocks
      → any (is_linked cid b.id) db.chunk_blocks ≡ true
      → Memᴰ b (blocks_of_chunk db cid)
  unfolding blocks_of_chunk
  mem-blocks_of_chunk cid b stored linked =
      mem-filter_of_mem (λ (k : BlockRow). any (is_linked cid k.id) db.chunk_blocks) db.blocks
        stored linked

-- A citation leads back to its source. Each target that `chunk_citation_targets` returns holds the
-- text and place of a stored chunk of that id that was asked for, and the name of that chunk's
-- document. Each stored chunk that is asked for and whose document is stored has one. Where a block
-- with a box on a page is linked to the chunk, that target has a region on the same page which holds
-- the block's whole box.
pub chunk_citation_targets_lem :
    (db : Tables) (chunk_ids : List String)
    → ((cid : String) (t : Target)
        → Dict.get? (chunk_citation_targets chunk_ids db) cid ≡ some t
        → (r : TargetRow) × IsRow db chunk_ids r × (r.chunk.id ≡ cid) × IsFrom r t)
      × ((c : ChunkRow) (d : DocumentRow)
          → Memᴰ c db.chunks
          → contains chunk_ids c.id ≡ true
          → find_by_id db.documents c.document_id ≡ some d
          → (is_none (Dict.get? (chunk_citation_targets chunk_ids db) c.id) ≡ false)
            × ((b : BlockRow) (p : ℕ) (x : BBox)
                → Memᴰ b db.blocks
                → any (is_linked c.id b.id) db.chunk_blocks ≡ true
                → b.page_no ≡ some p
                → b.bbox ≡ some x
                → HasRegion p x (Dict.get? (chunk_citation_targets chunk_ids db) c.id)))
chunk_citation_targets_lem db chunk_ids = (
  (λ cid t e.
      let good =
        Each-sort_by target_before (IsRow db chunk_ids) (rows_of_chunks db chunk_ids db.chunks)
          (rows_of_chunks-IsRow db chunk_ids db.chunks (λ c m. m)) in
      let from = collect_one-FromRow (IsRow db chunk_ids) cid (rows db chunk_ids) none good tt in
      subst (FromRow (IsRow db chunk_ids) cid) (sym (rows_lem db chunk_ids cid) ∙ e) from),
  (λ c d stored asked e. (
    (let (g, m) = some_group db chunk_ids (group_by_page (blocks_of_chunk db c.id) []) in
        let r = row_at c d g in
        ap is_none (rows_lem db chunk_ids c.id)
        ∙ collect_one-some c.id (rows db chunk_ids) none r
            (mem_row db chunk_ids c d g stored asked e m) (eq_refl c.id)),
    (λ b p x known linked page box.
        let (g, m, around) =
          group_by_page-Covers (blocks_of_chunk db c.id) [] b p x
            (mem-blocks_of_chunk db chunk_ids c.id b known linked) page box in
        let r = row_at c d g in
        subst (HasRegion p x) (sym (rows_lem db chunk_ids c.id)) (
          collect_one-new c.id (rows db chunk_ids) none r p x
            (mem_row db chunk_ids c d g stored asked e
              (mem-or_null_row db chunk_ids (group_by_page (blocks_of_chunk db c.id) []) g m))
            (eq_refl c.id) around)),
  )),
)
