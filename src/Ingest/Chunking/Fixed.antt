-- ===== src/Ingest/Chunking/Fixed.antt =====
-- `_fit_window` and `chunk_fixed` of ragent/ingest/chunking.py. Each `while` takes fuel, or recurs
-- on the number that it counts down. `int(span * target / actual)` is a division of whole numbers.
pub mod Windows
pub mod Coverage
pub mod Provenance
pub mod Raising
use ragent.Common.{
  ℕ, zero, suc, ◌+◌, ◌-◌, ◌*◌, ◌/◌, max, Bool, false, ◌&&◌, ◌||◌, not, Option, none, some, List, [],
  map, ltb, leb, if◌then◌else◌, length, nth, is_empty,
}
use ragent.Ingest.Text.{Text, slice, words_of}
use ragent.Ingest.Types.{SourceBlock, Chunk}
use ragent.Ingest.Chunking.{
  TokenCounter, Span, flatten, blocks_in_range, prepare, assemble, assemble_raises, append_chunk,
}

module _ (doc : Text) (words : List (ℕ × ℕ)) (costs : List ℕ) (target overlap : ℕ)
    (count_tokens : TokenCounter) where
  abbrev pub cost : ℕ → ℕ
  cost j = nth costs j 0

  -- `words[i][0]` and `words[j - 1][1]`
  abbrev pub start_of : ℕ → ℕ
  start_of i = (nth words i (0, 0)).0

  abbrev pub end_of : ℕ → ℕ
  end_of j = (nth words (j - 1) (0, 0)).1

  -- The first loop of `_fit_window`.
  unfoldable pub grow : ℕ → ℕ → ℕ → ℕ
  grow zero j est = j
  grow (suc fuel) j est =
      let rest = grow fuel (j + 1) (est + cost j) in
      if ltb j (length words) && leb (est + cost j) target then rest else j

  -- How far the second loop scales a window that does not fit.
  unfoldable pub scaled_end : ℕ → ℕ → ℕ → ℕ
  scaled_end i j actual =
      let span = j - i in
      let scaled = max 1 (span * target / actual) in
      i + (if ltb scaled span then scaled else span - 1)

  -- The second loop.
  unfoldable pub shrink : ℕ → ℕ → ℕ → ℕ
  shrink zero i j = j
  shrink (suc fuel) i j =
      let actual = count_tokens (slice doc (start_of i) (end_of j)) in
      let rest = shrink fuel i (scaled_end i j actual) in
      if ltb (i + 1) j && ltb target actual then rest else j

  unfoldable pub fit_window : ℕ → ℕ
  fit_window i =
      let j = grow (length words - i) i 0 in if leb j i then i + 1 else shrink (length words) i j

  -- The loop that walks back over the overlap: `k`, and what it has taken.
  unfoldable pub walk_back : ℕ → ℕ → ℕ → ℕ
  walk_back i zero back = zero
  walk_back i (suc k) back =
      let rest = walk_back i k (back + cost k) in
      if ltb (i + 1) (suc k) && leb (back + cost k) overlap then rest else suc k

  -- `i = k if k > i else j`
  unfoldable pub next_start : ℕ → ℕ → ℕ
  next_start i j = let k = walk_back i j 0 in if ltb i k then k else j

  module _ (spans : List Span) where
    unfoldable pub window_chunk : ℕ → ℕ → ℕ → Option Chunk
    window_chunk seq i j =
        assemble seq (slice doc (start_of i) (end_of j))
          (blocks_in_range spans (start_of i) (end_of j)) "fixed" count_tokens

    -- Whether one of the loop's calls of `_assemble` raises.
    unfoldable pub fixed_from_raises : ℕ → ℕ → Bool
    fixed_from_raises zero i = false
    fixed_from_raises (suc fuel) i =
        let j = fit_window i in
        let rest = fixed_from_raises fuel (next_start i j) in
        let here =
          assemble_raises (slice doc (start_of i) (end_of j))
            (blocks_in_range spans (start_of i) (end_of j)) in
        ltb i (length words) && (here || ltb j (length words) && rest)

    -- The main loop. `none` means that the fuel ran out.
    unfoldable pub fixed_from : ℕ → ℕ → List Chunk → Option (List Chunk)
    fixed_from zero i chunks = none
    fixed_from (suc fuel) i chunks =
        let j = fit_window i in
        let chunks' = append_chunk chunks (window_chunk (length chunks) i j) in
        let rest = fixed_from fuel (next_start i j) chunks' in
        if leb (length words) i
        then some chunks
        else if leb (length words) j
        then some chunks'
        else rest

-- The chunks of `chunk_fixed`, where no call raises.
unfoldable pub fixed_chunks : TokenCounter → ℕ → ℕ → List SourceBlock → Option (List Chunk)
fixed_chunks count_tokens target overlap blocks =
    let (doc, spans) = flatten (prepare blocks) in
    let words = words_of doc in
    let costs = map (λ (w : ℕ × ℕ). count_tokens (slice doc w.0 w.1)) words in
    if is_empty doc || is_empty words
    then some []
    else fixed_from doc words costs target overlap count_tokens spans (length words + 1) 0 []

unfoldable pub fixed_raises : TokenCounter → ℕ → ℕ → List SourceBlock → Bool
fixed_raises count_tokens target overlap blocks =
    let (doc, spans) = flatten (prepare blocks) in
    let words = words_of doc in
    let costs = map (λ (w : ℕ × ℕ). count_tokens (slice doc w.0 w.1)) words in
    not (is_empty doc || is_empty words)
    && fixed_from_raises doc words costs target overlap count_tokens spans (length words + 1) 0

-- `none` is the TypeError, or the end of the fuel.
unfoldable pub chunk_fixed : TokenCounter → ℕ → ℕ → List SourceBlock → Option (List Chunk)
chunk_fixed count_tokens target overlap blocks =
    if fixed_raises count_tokens target overlap blocks
    then none
    else fixed_chunks count_tokens target overlap blocks
