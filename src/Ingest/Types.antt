-- ===== src/Ingest/Types.antt =====
-- The values that the ingest stages pass on: ragent/ingest/types.py. A bounding box is four
-- coordinates in billionths of the page. `confidence`, which no code of these modules reads, is
-- left out.
use ragent.Common.{
  ℕ, String, Bool, true, false, ◌&&◌, ◌||◌, not, Option, none, some, List, [], ◌∷◌, ◌++◌, str_eq,
}
use ragent.Ingest.Text.{Text}

pub record BBox : Type 0 where
  pub x0 : ℕ
  pub y0 : ℕ
  pub x1 : ℕ
  pub y1 : ℕ

pub record SourceBlock : Type 0 where
  pub id : String
  pub page_no : ℕ
  pub reading_order : ℕ
  pub kind : String
  pub text : Text
  pub bbox : Option BBox
  pub char_start : Option ℕ
  pub char_end : Option ℕ
  pub section_path : List String
  pub origin : String

abbrev pub is_none {ℓ} : {A : Type ℓ} → Option A → Bool
is_none none = true
is_none (some _) = false

-- `__post_init__`: a block that can be located neither way is a ValueError.
unfoldable pub is_locatable : SourceBlock → Bool
is_locatable b = not (is_none b.bbox && is_none b.char_start)

unfoldable pub is_paged : SourceBlock → Bool
is_paged b = not (is_none b.bbox)

unfoldable pub is_atomic : SourceBlock → Bool
is_atomic b = str_eq b.kind "table" || str_eq b.kind "figure"

unfoldable pub is_boundary : SourceBlock → Bool
is_boundary b = str_eq b.kind "title" || str_eq b.kind "heading"

unfoldable pub is_furniture : SourceBlock → Bool
is_furniture b = str_eq b.kind "header" || str_eq b.kind "footer" || str_eq b.kind "page_number"

-- The keys of `Chunk.meta` that the chunkers write.
pub record ChunkMeta : Type 0 where
  pub atomic : Option String

pub record Chunk : Type 0 where
  pub seq : ℕ
  pub text : Text
  pub block_ids : List String
  pub token_count : ℕ
  pub page_from : Option ℕ
  pub page_to : Option ℕ
  pub char_start : Option ℕ
  pub char_end : Option ℕ
  pub section_path : List String
  pub context_prefix : Option Text
  pub strategy : String
  pub meta : ChunkMeta

-- "\n\n"
abbrev pub block_join : Text
block_join = 10 ∷ 10 ∷ []

unfoldable pub embedding_text : Chunk → Text
embedding_text c = elim c.context_prefix [
  | none ↦ c.text
  | some [] ↦ c.text
  | some prefix ↦ prefix ++ (block_join ++ c.text)
]
