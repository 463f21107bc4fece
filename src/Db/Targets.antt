-- ===== src/Db/Targets.antt =====
-- `chunk_citation_targets` and `lexical_search` of ragent/db/repo.py. The score of a chunk for a
-- query, `ts_rank_cd` of its `tsv` if that matches, is a parameter.
pub mod Regions
pub mod Collected
pub mod Facts
use ragent.Common.{
  ℕ, zero, suc, ◌+◌, min, max, String, Bool, true, false, ◌&&◌, Option, none, some, List, [], ◌∷◌,
  ◌++◌, map, str_eq, ltb, ◌==◌, if◌then◌else◌, filter, any, contains, sort_by,
}
use ragent.Common.Dict
use ragent.Common.Dict.{Dict}
use ragent.Ingest.Text.{Text}
use ragent.Ingest.Types.{BBox}
use ragent.Db.Tables.{DocumentRow, BlockRow, ChunkRow, Link, Tables}
use ragent.Db.Documents.{find_by_id}

-- `{"page_no": …, "x0": …, "y0": …, "x1": …, "y1": …}`
pub record Region : Type 0 where
  pub page_no : ℕ
  pub bbox : BBox

pub record Target : Type 0 where
  pub chunk_id : String
  pub document_id : String
  pub document_name : String
  pub provenance : Option String
  pub text : Text
  pub section_path : List String
  pub char_start : Option ℕ
  pub char_end : Option ℕ
  pub regions : List Region

-- A group of the query: a page of a chunk's blocks, and the union of their boxes.
pub record Group : Type 0 where
  pub page_no : Option ℕ
  pub bbox : Option BBox

-- A row that the query returns.
pub record TargetRow : Type 0 where
  pub chunk : ChunkRow
  pub document : DocumentRow
  pub group : Group

-- `min` and `max` of the coordinates, which leave NULL out.
unfoldable pub merge_boxes : Option BBox → Option BBox → Option BBox
merge_boxes none other = other
merge_boxes (some a) none = some a
merge_boxes (some a) (some b) =
    some (record { x0 = min a.x0 b.x0; y0 = min a.y0 b.y0; x1 = max a.x1 b.x1; y1 = max a.y1 b.y1 })

-- Equal keys of GROUP BY, where NULL is one.
abbrev pub same_page : Option ℕ → Option ℕ → Bool
same_page none none = true
same_page (some p) (some q) = p == q
same_page _ _ = false

unfoldable pub add_to_group : BlockRow → List Group → List Group
add_to_group b [] = record { page_no = b.page_no; bbox = b.bbox } ∷ []
add_to_group b (g ∷ rest) =
    if same_page g.page_no b.page_no
    then record g { bbox = merge_boxes g.bbox b.bbox } ∷ rest
    else g ∷ add_to_group b rest

unfoldable pub group_by_page : List BlockRow → List Group → List Group
group_by_page [] groups = groups
group_by_page (b ∷ rest) groups = group_by_page rest (add_to_group b groups)

-- The blocks that the two LEFT JOINs find for a chunk.
abbrev pub is_linked : String → String → Link → Bool
is_linked chunk_id block_id l = str_eq l.chunk_id chunk_id && str_eq l.block_id block_id

unfoldable pub blocks_of_chunk : Tables → String → List BlockRow
blocks_of_chunk db chunk_id =
    filter (λ (b : BlockRow). any (is_linked chunk_id b.id) db.chunk_blocks) db.blocks

-- A chunk without blocks has one row of NULLs.
abbrev pub or_null_row : List Group → List Group
or_null_row [] = record { page_no = none; bbox = none } ∷ []
or_null_row (g ∷ rest) = g ∷ rest

unfoldable pub rows_of_chunk : Tables → ChunkRow → List TargetRow
rows_of_chunk db c = elim (find_by_id db.documents c.document_id) [
  | none ↦ []
  | some d ↦
      map (λ g. record { chunk = c; document = d; group = g })
        (or_null_row (group_by_page (blocks_of_chunk db c.id) []))
]

-- WHERE c.id = ANY(...)
unfoldable pub rows_of_chunks : Tables → List String → List ChunkRow → List TargetRow
rows_of_chunks db chunk_ids [] = []
rows_of_chunks db chunk_ids (c ∷ rest) =
    let more = rows_of_chunks db chunk_ids rest in
    if contains chunk_ids c.id then rows_of_chunk db c ++ more else more

-- ORDER BY b.page_no NULLS LAST
abbrev pub page_before : Option ℕ → Option ℕ → Bool
page_before none _ = false
page_before (some p) none = true
page_before (some p) (some q) = ltb p q

abbrev pub target_before : TargetRow → TargetRow → Bool
target_before a b = page_before a.group.page_no b.group.page_no

-- The entry of `setdefault`.
abbrev pub new_target : TargetRow → Target
new_target r = record {
  chunk_id = r.chunk.id;
  document_id = r.document.id;
  document_name = r.document.original_name;
  provenance = r.document.provenance;
  text = r.chunk.text;
  section_path = r.chunk.section_path;
  char_start = r.chunk.char_start;
  char_end = r.chunk.char_end;
  regions = [];
}

abbrev pub region_of : Group → List Region
region_of g = elim g.page_no [
  | none ↦ []
  | some p ↦ elim g.bbox [ none ↦ [] | some box ↦ record { page_no = p; bbox = box } ∷ [] ]
]

abbrev pub with_region : Group → Target → Target
with_region g t = record t { regions = t.regions ++ region_of g }

-- The loop over the rows.
unfoldable pub collect_targets : List TargetRow → Dict Target → Dict Target
collect_targets [] out = out
collect_targets (r ∷ rest) out =
    let entry = Dict.get_or out r.chunk.id (new_target r) in
    collect_targets rest (Dict.put out r.chunk.id (with_region r.group entry))

unfoldable pub chunk_citation_targets : List String → Tables → Dict Target
chunk_citation_targets chunk_ids db =
    collect_targets (sort_by target_before (rows_of_chunks db chunk_ids db.chunks)) []

module _ {Score : Type 0} (less : Score → Score → Bool) where
  -- The chunks of the tenant and the strategy that match, with their scores.
  unfoldable pub matches :
      (ChunkRow → Option Score) → String → String → Tables → List ChunkRow → List (String × Score)
  matches rank strategy tenant_id db [] = []
  matches rank strategy tenant_id db (c ∷ rest) =
      let more = matches rank strategy tenant_id db rest in
      let here : List (String × Score) = elim (rank c) [
        | none ↦ more
        | some score ↦ (c.id, score) ∷ more
      ] in
      let owned : Bool = elim (find_by_id db.documents c.document_id) [
        | none ↦ false
        | some d ↦ str_eq d.tenant_id tenant_id
      ] in
      if owned && str_eq c.strategy strategy then here else more

  abbrev pub take_hits : ℕ → List (String × Score) → List (String × Score)
  take_hits zero hits = []
  take_hits (suc n) [] = []
  take_hits (suc n) (h ∷ rest) = h ∷ take_hits n rest

  -- ORDER BY score DESC LIMIT …
  unfoldable pub lexical_search :
      (ChunkRow → Option Score) → String → ℕ → String → Tables → List (String × Score)
  lexical_search rank strategy limit tenant_id db =
      take_hits limit (sort_by (λ a b. less b.1 a.1) (matches rank strategy tenant_id db db.chunks))
