-- ===== src/Db/Blocks.antt =====
-- `insert_blocks` and `load_blocks` of ragent/db/repo.py. `fresh n` is the text of the n-th
-- `uuid.uuid4()`, `as_real` is what a `real` column keeps of a coordinate, and `none` is a statement
-- that fails or a ValueError.
pub mod Ids
pub mod Roundtrip
use ragent.Common.{
  ℕ, ◌+◌, String, Bool, ◌&&◌, ◌||◌, not, Option, none, some, List, [], ◌∷◌, ◌++◌, map, str_eq, ltb,
  ◌==◌, if◌then◌else◌, filter, all, contains, distinct, sort_by,
}
use ragent.Common.Dict
use ragent.Common.Dict.{Dict}
use ragent.Ingest.Types.{BBox, SourceBlock, is_locatable}
use ragent.Db.Tables.{BlockRow, Tables, has_document, is_valid_block, block_ids}

-- `{block.id: str(uuid.uuid4()) for block in blocks}`, whose n-th id comes next.
unfoldable pub assign_ids : (ℕ → String) → ℕ → List SourceBlock → Dict String → Dict String
assign_ids fresh n [] assigned = assigned
assign_ids fresh n (b ∷ rest) assigned =
    assign_ids fresh (n + 1) rest (Dict.put assigned b.id (fresh n))

-- `page_ids.get(page_no)`
abbrev pub page_id_of : List (ℕ × String) → ℕ → Option String
page_id_of [] page_no = none
page_id_of ((p, id) ∷ rest) page_no = if p == page_no then some id else page_id_of rest page_no

unfoldable pub real_box : (ℕ → ℕ) → BBox → BBox
real_box as_real b = record {
  x0 = as_real b.x0;
  y0 = as_real b.y0;
  x1 = as_real b.x1;
  y1 = as_real b.y1;
}

-- The row that is written for a block.
unfoldable pub block_row :
    (ℕ → ℕ) → String → List (ℕ × String) → Dict String → SourceBlock → BlockRow
block_row as_real document_id page_ids assigned b = record {
  id = Dict.get_or assigned b.id "";
  document_id = document_id;
  page_id = page_id_of page_ids b.page_no;
  page_no = elim b.bbox [ none ↦ none | some _ ↦ some b.page_no ];
  reading_order = b.reading_order;
  kind = b.kind;
  origin = b.origin;
  bbox = elim b.bbox [ none ↦ none | some box ↦ some (real_box as_real box) ];
  char_start = b.char_start;
  char_end = b.char_end;
  text = b.text;
  section_path = b.section_path;
}

-- One INSERT of several rows: their checks, and the primary key.
unfoldable pub insert_rows : List BlockRow → List BlockRow → Option (List BlockRow)
insert_rows new rows =
    if all is_valid_block new
      && distinct (block_ids new)
      && all (λ id. not (contains (block_ids rows) id)) (block_ids new)
    then some (rows ++ new)
    else none

unfoldable pub insert_blocks :
    (ℕ → ℕ)
    → (ℕ → String)
    → String
    → List SourceBlock
    → List (ℕ × String)
    → Tables
    → Option (Dict String × Tables)
insert_blocks as_real fresh document_id [] page_ids db = some ([], db)
insert_blocks as_real fresh document_id (b ∷ rest) page_ids db =
    let blocks = b ∷ rest in
    let assigned = assign_ids fresh 0 blocks [] in
    if has_document db document_id
    then elim (insert_rows (map (block_row as_real document_id page_ids assigned) blocks)
        db.blocks) [ none ↦ none | some rows ↦ some (assigned, record db { blocks = rows }) ]
    else none

-- `r["page_no"] or 0`, and COALESCE(page_no, 0)
abbrev pub page_or_zero : Option ℕ → ℕ
page_or_zero none = 0
page_or_zero (some n) = n

-- The order of `ORDER BY COALESCE(page_no, 0), reading_order`.
abbrev pub row_before : BlockRow → BlockRow → Bool
row_before a b =
    let p = page_or_zero a.page_no in
    let q = page_or_zero b.page_no in ltb p q || p == q && ltb a.reading_order b.reading_order

unfoldable pub block_of : BlockRow → SourceBlock
block_of r = record {
  id = r.id;
  page_no = page_or_zero r.page_no;
  reading_order = r.reading_order;
  kind = r.kind;
  text = r.text;
  bbox = r.bbox;
  char_start = r.char_start;
  char_end = r.char_end;
  section_path = r.section_path;
  origin = r.origin;
}

-- The rows of a document.
abbrev pub rows_of : String → List BlockRow → List BlockRow
rows_of document_id = filter (λ (r : BlockRow). str_eq r.document_id document_id)

-- `SourceBlock(...)` raises for a block that cannot be located.
unfoldable pub load_blocks : String → Tables → Option (List SourceBlock)
load_blocks document_id db =
    let blocks = map block_of (sort_by row_before (rows_of document_id db.blocks)) in
    if all is_locatable blocks then some blocks else none
