-- ===== src/Tests/Indexing.antt =====
-- The chunk stage over the blocks of one document.
use ragent.Common.{◌≡◌, refl, none, List, [], ◌∷◌, map, length, sort_by}
use ragent.Ingest.Types.{SourceBlock}
use ragent.Db.Tables.{BlockRow, Tables}
use ragent.Db.Blocks.{load_blocks}
use ragent.Ingest.Indexing.{Chunking, no_blocks, chunk_stage}
use ragent.Tests.Fresh.{fresh}
use ragent.Tests.Db.{block_row_of, box, lower_box, empty_tables}

abbrev chunking : Chunking
chunking = record {
  semantic = λ count_tokens target overlap blocks. none;
  count_tokens = length;
  target_tokens = 40;
  overlap_tokens = 5;
}

abbrev read_row : BlockRow → SourceBlock
read_row r = record {
  id = r.id;
  page_no = 1;
  reading_order = r.reading_order;
  kind = r.kind;
  text = r.text;
  bbox = r.bbox;
  char_start = none;
  char_end = none;
  section_path = [];
  origin = r.origin;
}

abbrev loaded : List SourceBlock
loaded = map read_row (block_row_of "b0" 0 box ∷ block_row_of "b1" 1 lower_box ∷ [])

-- A document whose parsing has produced nothing.
nothing_to_chunk :
    chunk_stage chunking (λ k. fresh) ("layout" ∷ []) "doc" empty_tables ≡ (no_blocks, empty_tables)
unfolding chunk_stage load_blocks sort_by
nothing_to_chunk = refl
