-- ===== src/Ingest/Chunking.antt =====
-- What the strategies of ragent/ingest/chunking.py share: reading order, the flattened document
-- and the assembly of a chunk. The token counter is a parameter.
pub mod Assembly
pub mod Fixed
pub mod Recursive
pub mod Layout
use ragent.Common.{
  ℕ, suc, ◌+◌, String, Bool, true, false, ◌&&◌, ◌||◌, not, Option, none, some, List, [], ◌∷◌, ◌++◌,
  map, min, max, ltb, leb, ◌==◌, if◌then◌else◌, length, filter, is_empty, any,
}
use ragent.Ingest.Text.{Text, strip}
use ragent.Ingest.Types.{SourceBlock, Chunk, is_paged, is_furniture, is_none, block_join}

-- `TokenCounter`
abbrev pub TokenCounter : Type 0
TokenCounter = Text → ℕ

-- `_Span`
pub record Span : Type 0 where
  pub start : ℕ
  pub end : ℕ
  pub block : SourceBlock

-- The loop of `_flatten` behind the first part: the cursor, the parts and the spans so far. The
-- parts are joined as they come.
unfoldable pub flatten_from : List SourceBlock → Bool → ℕ → Text × List Span
flatten_from [] first cursor = ([], [])
flatten_from (b ∷ rest) first cursor =
    let text = strip b.text in
    let gap = if first then [] else block_join in
    let start = cursor + length gap in
    let skipped = flatten_from rest first cursor in
    let (more, spans) = flatten_from rest false (start + length text) in
    if is_empty text then skipped else (
      gap ++ (text ++ more),
      record { start = start; end = start + length text; block = b } ∷ spans,
    )

unfoldable pub flatten : List SourceBlock → Text × List Span
unfolding flatten_from
flatten blocks = flatten_from blocks true 0

unfoldable pub blocks_in_range : List Span → ℕ → ℕ → List SourceBlock
blocks_in_range spans start end =
    map (λ (s : Span). s.block) (filter (λ (s : Span). ltb s.start end && ltb start s.end) spans)

-- The order of the sort key `(page_no, reading_order)`.
abbrev pub reads_before : SourceBlock → SourceBlock → Bool
reads_before a b =
    ltb a.page_no b.page_no || a.page_no == b.page_no && ltb a.reading_order b.reading_order

-- `sorted` is stable: a block goes in front of those that it reads before, and of no equal one.
unfoldable pub insert_block : SourceBlock → List SourceBlock → List SourceBlock
insert_block b [] = b ∷ []
insert_block b (x ∷ rest) = if reads_before x b then x ∷ insert_block b rest else b ∷ x ∷ rest

unfoldable pub sort_blocks : List SourceBlock → List SourceBlock
unfolding insert_block
sort_blocks [] = []
sort_blocks (b ∷ rest) = insert_block b (sort_blocks rest)

unfoldable pub prepare : List SourceBlock → List SourceBlock
unfolding sort_blocks
prepare blocks =
    sort_blocks
      (filter (λ (b : SourceBlock). not (is_empty (strip b.text)) && not (is_furniture b)) blocks)

-- `min(…)` and `max(…)` over the values that are there, `None` over none.
abbrev pub fold_option : (ℕ → ℕ → ℕ) → List ℕ → Option ℕ
fold_option f [] = none
fold_option f (x ∷ rest) = elim (fold_option f rest) [ none ↦ some x | some y ↦ some (f x y) ]

-- The values of an optional field, where it is set.
abbrev pub present : List (Option ℕ) → List ℕ
present [] = []
present (none ∷ rest) = present rest
present (some x ∷ rest) = x ∷ present rest

-- `max(…, key=len, default=())`: the first of the longest.
unfoldable pub deepest : List (List String) → List String
deepest [] = []
deepest (p ∷ []) = p
deepest (p ∷ q ∷ rest) =
    let later = deepest (q ∷ rest) in if ltb (length p) (length later) then later else p

-- A block that has a start and no end.
abbrev pub is_open : SourceBlock → Bool
is_open b = not (is_none b.char_start) && is_none b.char_end

-- Whether `_assemble` raises instead of returning: `max` over the ends of several blocks that have a
-- start raises a TypeError where one of the ends is None. A chunker that calls it raises then too.
unfoldable pub assemble_raises : Text → List SourceBlock → Bool
assemble_raises text blocks =
    let spans = filter (λ (b : SourceBlock). not (is_none b.char_start)) blocks in
    not (is_empty (strip text) || is_empty blocks) && (ltb 1 (length spans) && any is_open blocks)

-- What `_assemble` returns where it does not raise.
unfoldable pub assemble : ℕ → Text → List SourceBlock → String → TokenCounter → Option Chunk
assemble seq text blocks strategy count_tokens =
    let stripped = strip text in
    if is_empty stripped || is_empty blocks
    then none
    else let spans = filter (λ (b : SourceBlock). not (is_none b.char_start)) blocks in
      let paged = map (λ (b : SourceBlock). b.page_no) (filter is_paged blocks) in
      some (record {
        seq = seq;
        text = stripped;
        block_ids = map (λ (b : SourceBlock). b.id) blocks;
        token_count = count_tokens stripped;
        page_from = fold_option min paged;
        page_to = fold_option max paged;
        char_start = fold_option min (present (map (λ (b : SourceBlock). b.char_start) spans));
        char_end = fold_option max (present (map (λ (b : SourceBlock). b.char_end) spans));
        section_path = deepest (map (λ (b : SourceBlock). b.section_path) blocks);
        context_prefix = none;
        strategy = strategy;
        meta = record { atomic = none };
      })

-- `if chunk: chunks.append(chunk)`
abbrev pub append_chunk : List Chunk → Option Chunk → List Chunk
append_chunk chunks none = chunks
append_chunk chunks (some c) = chunks ++ c ∷ []
