-- ===== src/Tests/Db.antt =====
-- A store with one document: its blocks, its chunks, and the targets of their citations.
use ragent.Common.{
  ℕ, ◌*◌, ◌/◌, String, ◌≡◌, refl, Bool, true, false, ◌&&◌, Option, none, some, List, [], ◌∷◌, map,
  arith, str_eq, any, contains,
}
use ragent.Common.Dict
use ragent.Common.Dict.{Dict}
use mathlib.Core.List.{Memᴰ}
use ragent.Ingest.Text.{codes}
use ragent.Ingest.Types.{BBox, SourceBlock, Chunk, is_none}
use ragent.Db.Tables.{DocumentRow, BlockRow, ChunkRow, Tables, has_document}
use ragent.Db.Pages.{Page, upsert_page, upsert_pages, insert_pages}
use ragent.Db.Documents.{list_documents, new_document, find_document, create_document, find_by_id}
use ragent.Db.Documents.Dedupe.{id_of, create_document_lem}
use ragent.Db.Chunks.{with_ids, chunk_ids_of, chunk_row, replace_chunks, load_chunks}
use ragent.Db.Chunks.Linked.{linked_blocks, add_each}
use ragent.Db.Chunks.Replacing.{replace_chunks_lem}
use ragent.Db.Targets.{Target, TargetRow, is_linked, chunk_citation_targets}
use ragent.Db.Targets.Collected.{IsFrom, HasRegion}
use ragent.Db.Targets.Facts.{IsRow, chunk_citation_targets_lem}
use ragent.Tests.Fresh.{fresh, fresh_once, old}

abbrev pub document : DocumentRow
document = new_document "doc" "hash" "s3://raw/hash.pdf" "report.pdf" "application/pdf" 9 "acme"

abbrev pub empty_tables : Tables
empty_tables = record {
  documents = document ∷ [];
  runs = [];
  pages = [];
  blocks = [];
  chunks = [];
  chunk_blocks = [];
}

create_document_lem_example :
    (id : String) × (created : Bool) × (db' : Tables) × (create_document "new" "hash"
        "s3://raw/hash.pdf" "copy.pdf" "application/pdf" 9 "acme" empty_tables
      ≡ ((id, created), db'))
    × (id_of (find_document db'.documents "acme" "hash") ≡ some id)
    × (created ≡ is_none (find_document empty_tables.documents "acme" "hash"))
    × ((t h : String)
        → (str_eq "acme" t && str_eq "hash" h) ≡ false
        → find_document db'.documents t h ≡ find_document empty_tables.documents t h)
    × (create_document "newer" "hash" "s3://raw/hash.pdf" "again.pdf" "application/pdf" 9 "acme" db'
        ≡ ((id, false), db'))
create_document_lem_example =
    create_document_lem "new" "newer" "hash" "s3://raw/hash.pdf" "s3://raw/hash.pdf" "copy.pdf"
      "again.pdf" "application/pdf" "application/pdf" 9 9 "acme" empty_tables

abbrev pub box : BBox
box = record { x0 = 100; y0 = 100; x1 = 900; y1 = 200 }

abbrev source_block : String → ℕ → String → SourceBlock
source_block name order kind = record {
  id = name;
  page_no = 1;
  reading_order = order;
  kind = kind;
  text = codes "Revenue";
  bbox = some box;
  char_start = none;
  char_end = none;
  section_path = [];
  origin = "native";
}

abbrev source_blocks : List SourceBlock
source_blocks = source_block "p1b0" 0 "heading" ∷ source_block "p1b1" 1 "paragraph" ∷ []

-- Columns that keep the even coordinates only.
to_even : ℕ → ℕ
to_even n = n / 2 * 2

abbrev pub block_row_of : String → ℕ → BBox → BlockRow
block_row_of name order b = record {
  id = name;
  document_id = "doc";
  page_id = none;
  page_no = some 1;
  reading_order = order;
  kind = "paragraph";
  origin = "native";
  bbox = some b;
  char_start = none;
  char_end = none;
  text = codes "Revenue";
  section_path = [];
}

abbrev chunk_of : ℕ → List String → Chunk
chunk_of seq ids = record {
  seq = seq;
  text = codes "Revenue";
  block_ids = ids;
  token_count = 1;
  page_from = some 1;
  page_to = some 1;
  char_start = none;
  char_end = none;
  section_path = [];
  context_prefix = none;
  strategy = "layout";
  meta = record { atomic = none };
}

abbrev pub stored_chunk : ChunkRow
stored_chunk = chunk_row "doc" "layout" ("c0", chunk_of 0 ("b0" ∷ "b1" ∷ []))

abbrev pub lower_box : BBox
lower_box = record { x0 = 50; y0 = 300; x1 = 600; y1 = 400 }

abbrev pub tables : Tables
tables = record {
  documents = document ∷ [];
  runs = [];
  pages = [];
  blocks = block_row_of "b0" 0 box ∷ block_row_of "b1" 1 lower_box ∷ [];
  chunks = stored_chunk ∷ [];
  chunk_blocks =
      record { chunk_id = "c0"; block_id = "b0"; ordinal = 0 }
      ∷ record { chunk_id = "c0"; block_id = "b1"; ordinal = 1 }
      ∷ [];
}

abbrev new_chunks : List Chunk
new_chunks = chunk_of 0 ("b0" ∷ []) ∷ chunk_of 1 ("b0" ∷ "b1" ∷ "b0" ∷ []) ∷ []

replace_chunks_lem_example :
    (db' : Tables) × (replace_chunks fresh "doc" "layout" new_chunks tables
      ≡ some (chunk_ids_of (with_ids fresh 0 new_chunks), db'))
    × (load_chunks "doc" "layout" db'
        ≡ map (chunk_row "doc" "layout") (with_ids fresh 0 new_chunks))
    × ((d s : String)
        → (str_eq "doc" d && str_eq "layout" s) ≡ false
        → load_chunks d s db' ≡ load_chunks d s tables)
    × ((p : String × Chunk)
        → Memᴰ p (with_ids fresh 0 new_chunks)
        → linked_blocks p.0 db'.chunk_blocks ≡ add_each [] p.1.block_ids)
unfolding has_document chunk_row
replace_chunks_lem_example =
    replace_chunks_lem fresh "doc" "layout" new_chunks tables refl
      (
        (refl, (refl, tt)),
        ((refl, refl, (refl, tt)), ((refl, refl, (refl, (refl, (refl, tt)))), tt)),
      )
      fresh_once old (λ n. twice n)
  where
    twice : (n : ℕ) → contains ("c0" ∷ "c0" ∷ []) (fresh n) ≡ false
    twice n = ground (arith, old n)

chunk_citation_targets_lem_example :
    ((cid : String) (t : Target)
      → Dict.get? (chunk_citation_targets ("c0" ∷ []) tables) cid ≡ some t
      → (r : TargetRow) × IsRow tables ("c0" ∷ []) r × (r.chunk.id ≡ cid) × IsFrom r t)
    × ((c : ChunkRow) (d : DocumentRow)
        → Memᴰ c tables.chunks
        → contains ("c0" ∷ []) c.id ≡ true
        → find_by_id tables.documents c.document_id ≡ some d
        → (is_none (Dict.get? (chunk_citation_targets ("c0" ∷ []) tables) c.id) ≡ false)
          × ((b : BlockRow) (p : ℕ) (x : BBox)
              → Memᴰ b tables.blocks
              → any (is_linked c.id b.id) tables.chunk_blocks ≡ true
              → b.page_no ≡ some p
              → b.bbox ≡ some x
              → HasRegion p x (Dict.get? (chunk_citation_targets ("c0" ∷ []) tables) c.id)))
chunk_citation_targets_lem_example = chunk_citation_targets_lem tables ("c0" ∷ [])

abbrev page : ℕ → Page
page width = record {
  page_no = 1;
  width_pt = width;
  height_pt = 792000;
  rotation = 0;
  render_uri = none;
  text_confidence = none;
  needs_ocr = false;
}

abbrev page_ids : Option (List (ℕ × String) × Tables) → List (ℕ × String)
page_ids none = []
page_ids (some (ids, db)) = ids

abbrev tables_of : Option (List (ℕ × String) × Tables) → Tables
tables_of none = empty_tables
tables_of (some (ids, db)) = db

-- A page that is inserted again keeps its id.
page_keeps_its_id :
    page_ids (
      insert_pages
        (λ n. "new")
        "doc"
        (page 612000 ∷ [])
        (tables_of (insert_pages (λ n. "first") "doc" (page 595000 ∷ []) empty_tables)))
    ≡ (1, "first") ∷ []
unfolding insert_pages upsert_pages upsert_page has_document
page_keeps_its_id = refl

layout_chunks_are_counted : list_documents "acme" 5 tables ≡ (document, 1) ∷ []
unfolding list_documents chunk_row
layout_chunks_are_counted = refl
