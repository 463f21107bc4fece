-- ===== src/Tests/Chunking.antt =====
-- A small document under each chunker. The token counter counts characters.
use ragent.Common.{
  ℕ, ◌≡◌, ◌≤◌, ◌<◌, refl, true, false, none, some, String, List, [], ◌∷◌, map, arith, contains,
  length, Each,
}
use ragent.Ingest.Text.{
  Text, slice, words_of, words_from, is_space, find, find_in, strip, rstrip, lstrip,
}
use ragent.Ingest.Types.{SourceBlock, Chunk, is_atomic, is_boundary, is_furniture, is_paged}
use ragent.Ingest.Chunking.{
  TokenCounter, flatten, flatten_from, prepare, assemble, assemble_raises, deepest, insert_block,
  sort_blocks, blocks_in_range,
}
use ragent.Ingest.Chunking.Layout
use ragent.Ingest.Chunking.Recursive
use ragent.Ingest.Chunking.Assembly.{IsSound, Outcome}
use ragent.Ingest.Chunking.Fixed.{fixed_from, chunk_fixed}
use ragent.Ingest.Chunking.Fixed.Provenance.{chunk_fixed-IsSound}
use ragent.Ingest.Chunking.Fixed.Coverage.{Fits, Holds, emit, fixed_from_covers}
use ragent.Ingest.Chunking.Recursive.{
  split_recursive, separators, chunk_recursive, recursive_chunks,
}
use ragent.Ingest.Chunking.Recursive.Tiling.{Tiles, split_recursive-Tiles}
use ragent.Ingest.Chunking.Recursive.Provenance.{chunk_recursive-IsSound}
use ragent.Ingest.Chunking.Layout.{chunk_layout, layout_chunks}
use ragent.Ingest.Chunking.Layout.Provenance.{chunk_layout-IsSound}
use ragent.Ingest.Chunking.Layout.Isolation.{chunk_layout-IsApart}
use ragent.Ingest.Chunking.Layout.Atomic.{IsApart}

abbrev counter : TokenCounter
counter = length

-- "ab cd"
abbrev pair_text : Text
pair_text = b'a' ∷ b'b' ∷ b' ' ∷ b'c' ∷ b'd' ∷ []

abbrev block : String → ℕ → String → Text → SourceBlock
block id reading_order kind text = record {
  id = id;
  page_no = 1;
  reading_order = reading_order;
  kind = kind;
  text = text;
  bbox = none;
  char_start = some 0;
  char_end = some 5;
  section_path = [];
  origin = "native";
}

abbrev document : List SourceBlock
document =
    block "t" 2 "table" pair_text
    ∷ block "p" 1 "paragraph" pair_text
    ∷ block "q" 3 "paragraph" pair_text
    ∷ block "f" 4 "footer" pair_text
    ∷ []

abbrev Known : String → Type 0
Known i = contains ("t" ∷ "p" ∷ "q" ∷ "f" ∷ []) i ≡ true

abbrev ids : List Chunk → List (List String)
ids = map (λ (c : Chunk). c.block_ids)

layout_run : ids (layout_chunks counter 20 5 document) ≡ ("p" ∷ []) ∷ ("t" ∷ []) ∷ ("q" ∷ []) ∷ []
unfolding layout_chunks prepare strip rstrip lstrip is_space is_furniture Layout.apply_block_overlap
    Layout.pack Layout.flush is_atomic Layout.add_block Layout.starts_chunk is_boundary
    Layout.section_changed Layout.add_atomic assemble Layout.join_blocks Layout.by_id Layout.carried
    Layout.known_blocks Layout.overlap_blocks Layout.overlap_from deepest insert_block sort_blocks
    is_paged
layout_run = refl

recursive_run :
    ids (recursive_chunks counter 8 2 document)
    ≡ ("p" ∷ []) ∷ ("p" ∷ "t" ∷ []) ∷ ("t" ∷ "q" ∷ []) ∷ []
unfolding recursive_chunks flatten prepare strip rstrip lstrip is_space is_furniture
    Recursive.apply_text_overlap Recursive.pack split_recursive slice Recursive.cut find
    Recursive.flush Recursive.pack_piece Recursive.window_chunk assemble Recursive.is_full
    Recursive.join_words Recursive.overlap_from Recursive.overlap_text Recursive.tail_words
    Recursive.unique_from blocks_in_range deepest flatten_from insert_block sort_blocks find_in
    words_from words_of is_paged
recursive_run = refl

pair_words : words_of pair_text ≡ (0, 2) ∷ (3, 5) ∷ []
unfolding words_of
pair_words = refl

fixed_from_covers_example :
    (windows : List (ℕ × ℕ)) × (fixed_from pair_text
        ((0, 2) ∷ (3, 5) ∷ [])
        (2 ∷ 2 ∷ [])
        2
        0
        counter
        []
        3
        0
        []
      ≡ some (emit pair_text ((0, 2) ∷ (3, 5) ∷ []) (2 ∷ 2 ∷ []) 2 0 counter [] [] windows))
    × Each (Fits pair_text ((0, 2) ∷ (3, 5) ∷ []) (2 ∷ 2 ∷ []) 2 0 counter []) windows
    × ((x : ℕ) → 0 ≤ x → x < 2 → Holds x windows)
fixed_from_covers_example =
    fixed_from_covers pair_text ((0, 2) ∷ (3, 5) ∷ []) (2 ∷ 2 ∷ []) 2 0 counter [] 3 0 []
      (omega arith) (omega arith)

split_recursive-Tiles_example : Tiles 0 5 (split_recursive pair_text 2 counter separators 0 5)
split_recursive-Tiles_example =
    split_recursive-Tiles pair_text 2 counter separators
      (omega arith, (omega arith, (omega arith, (omega arith, (omega arith, (omega arith, tt)))))) 0
      5 (omega arith)

chunk_fixed-IsSound_example : Outcome (IsSound Known) document (chunk_fixed counter 8 2 document)
chunk_fixed-IsSound_example =
    chunk_fixed-IsSound Known counter 8 2 document (refl, (refl, (refl, (refl, tt))))

chunk_recursive-IsSound_example :
    Outcome (IsSound Known) document (chunk_recursive counter 8 2 document)
chunk_recursive-IsSound_example =
    chunk_recursive-IsSound Known counter 8 2 document (refl, (refl, (refl, (refl, tt))))

chunk_layout-IsSound_example : Outcome (IsSound Known) document (chunk_layout counter 20 5 document)
chunk_layout-IsSound_example =
    chunk_layout-IsSound Known counter 20 5 document (refl, (refl, (refl, (refl, tt))))

chunk_layout-IsApart_example :
    Outcome
      (Each (IsApart (λ i. i ≡ "t") (λ i. contains ("p" ∷ "q" ∷ "f" ∷ []) i ≡ true)))
      document
      (chunk_layout counter 20 5 document)
unfolding is_atomic
chunk_layout-IsApart_example =
    chunk_layout-IsApart (λ i. i ≡ "t") (λ i. contains ("p" ∷ "q" ∷ "f" ∷ []) i ≡ true) counter 20 5
      document (refl, (refl, (refl, (refl, tt))))

-- A block that has a start and no end.
abbrev open_block : SourceBlock
open_block = record (block "t" 2 "paragraph" pair_text) { char_start = some 3; char_end = none }

-- One such block makes a chunk without an end, and two raise.
one_open : assemble_raises pair_text (open_block ∷ []) ≡ false
unfolding assemble_raises
one_open = ground arith

two_open : assemble_raises pair_text (open_block ∷ open_block ∷ []) ≡ true
unfolding assemble_raises strip lstrip rstrip is_space
two_open = refl
