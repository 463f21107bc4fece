-- ===== src/Db/Tables.antt =====
-- The tables of infra/postgres/init.sql that ragent/db/repo.py reads and writes, as lists of rows in
-- the order of their insertion. Columns of times and of filing metadata are left out, and so are the
-- confidences of blocks. The four coordinates of a block are NULL together. Ids are the
-- texts of UUIDs.
use ragent.Common.{
  ℕ, ◌^◌, String, Bool, true, ◌&&◌, ◌||◌, not, Option, none, some, List, [], ◌∷◌, map, leb, ltb,
  str_eq, any, contains,
}
use ragent.Ingest.Text.{Text}
use ragent.Ingest.Types.{BBox, is_none}

pub record DocumentRow : Type 0 where
  pub id : String
  pub tenant_id : String
  pub sha256 : String
  pub source_uri : String
  pub original_name : String
  pub mime_type : String
  pub byte_size : ℕ
  pub page_count : Option ℕ
  pub status : String
  pub format_family : Option String
  pub provenance : Option String

pub record RunRow : Type 0 where
  pub id : String
  pub document_id : String
  pub pipeline_version : String
  pub status : String

-- Sizes are in thousandths of a point, and a confidence in thousandths.
pub record PageRow : Type 0 where
  pub id : String
  pub document_id : String
  pub page_no : ℕ
  pub width_pt : ℕ
  pub height_pt : ℕ
  pub rotation : ℕ
  pub render_uri : Option String
  pub text_confidence : Option ℕ
  pub needs_ocr : Bool

pub record BlockRow : Type 0 where
  pub id : String
  pub document_id : String
  pub page_id : Option String
  pub page_no : Option ℕ
  pub reading_order : ℕ
  pub kind : String
  pub origin : String
  pub bbox : Option BBox
  pub char_start : Option ℕ
  pub char_end : Option ℕ
  pub text : Text
  pub section_path : List String

pub record ChunkRow : Type 0 where
  pub id : String
  pub document_id : String
  pub strategy : String
  pub seq : ℕ
  pub text : Text
  pub context_prefix : Option Text
  pub token_count : ℕ
  pub section_path : List String
  pub page_from : Option ℕ
  pub page_to : Option ℕ
  pub char_start : Option ℕ
  pub char_end : Option ℕ

-- A row of `chunk_blocks`.
pub record Link : Type 0 where
  pub chunk_id : String
  pub block_id : String
  pub ordinal : ℕ

pub record Tables : Type 0 where
  pub documents : List DocumentRow
  pub runs : List RunRow
  pub pages : List PageRow
  pub blocks : List BlockRow
  pub chunks : List ChunkRow
  pub chunk_blocks : List Link

-- A foreign key to `documents`.
unfoldable pub has_document : Tables → String → Bool
has_document db document_id = any (λ (d : DocumentRow). str_eq d.id document_id) db.documents

abbrev pub block_ids : List BlockRow → List String
block_ids = map (λ (b : BlockRow). b.id)

abbrev pub one_whole : ℕ
one_whole = 10 ^ 9

-- `bbox_normalised`
unfoldable pub bbox_normalised : Option BBox → Bool
bbox_normalised none = true
bbox_normalised (some b) =
    leb b.x1 one_whole && leb b.y1 one_whole && ltb b.x0 b.x1 && ltb b.y0 b.y1

-- `char_range_valid`; a comparison with NULL does not fail a check.
unfoldable pub char_range_valid : Option ℕ → Option ℕ → Bool
char_range_valid (some start) (some end) = ltb start end
char_range_valid _ _ = true

-- `block_is_locatable`
unfoldable pub block_is_locatable : BlockRow → Bool
block_is_locatable b = not (is_none b.bbox) && not (is_none b.page_no) || not (is_none b.char_start)

abbrev pub block_kinds : List String
block_kinds =
    "title" ∷ "heading" ∷ "paragraph" ∷ "list" ∷ "table" ∷ "figure" ∷ "caption" ∷ "footnote"
    ∷ "header" ∷ "footer" ∷ "page_number" ∷ []

abbrev pub text_origins : List String
text_origins = "native" ∷ "ocr" ∷ "vlm" ∷ []

-- What an INSERT into `blocks` checks of a row by itself.
unfoldable pub is_valid_block : BlockRow → Bool
is_valid_block b =
    contains block_kinds b.kind
    && contains text_origins b.origin
    && bbox_normalised b.bbox
    && char_range_valid b.char_start b.char_end
    && block_is_locatable b
