-- ===== src/Db/Blocks/Roundtrip.antt =====
-- What is written of a document's blocks is read back.
use ragent.Common.{
  ℕ, String, ◌≡◌, Bool, true, ◌&&◌, ◌||◌, Option, none, some, List, ltb, ◌==◌, contains,
}
use ragent.Common.Dict
use ragent.Common.Dict.{Dict}
use ragent.Ingest.Types.{BBox, SourceBlock, is_locatable}
use ragent.Db.Tables.{
  BlockRow, Tables, block_kinds, text_origins, bbox_normalised, char_range_valid,
}
use ragent.Db.Blocks.{real_box, block_row}

-- What the `real` columns keep of a box.
abbrev pub stored_box : (ℕ → ℕ) → Option BBox → Option BBox
stored_box as_real none = none
stored_box as_real (some box) = some (real_box as_real box)

-- A block that the table takes, with the coordinates that its columns keep. One without a box is on
-- no page.
pub record IsStorable (as_real : ℕ → ℕ) (b : SourceBlock) : Type 0 where
  pub known_kind : contains block_kinds b.kind ≡ true
  pub known_origin : contains text_origins b.origin ≡ true
  pub no_page : b.bbox ≡ none → b.page_no ≡ 0
  pub normalised : bbox_normalised (stored_box as_real b.bbox) ≡ true
  pub range : char_range_valid b.char_start b.char_end ≡ true
  pub locatable : is_locatable b ≡ true

-- The block under its id in the database, with the coordinates that the columns keep.
abbrev pub as_stored : (ℕ → ℕ) → Dict String → SourceBlock → SourceBlock
as_stored as_real assigned b = record b {
  id = Dict.get_or assigned b.id "";
  bbox = stored_box as_real b.bbox;
}

-- The order in which blocks are read: by page, then by reading order.
abbrev pub block_before : SourceBlock → SourceBlock → Bool
block_before a b =
    ltb a.page_no b.page_no || a.page_no == b.page_no && ltb a.reading_order b.reading_order

module _ (as_real : ℕ → ℕ) (document_id : String) (page_ids : List (ℕ × String))
    (assigned : Dict String) where
  abbrev row : SourceBlock → BlockRow
  row = block_row as_real document_id page_ids assigned
