-- ===== src/Ingest/Chunking/Recursive.antt =====
-- `_split_recursive`, `chunk_recursive` and `_apply_text_overlap` of ragent/ingest/chunking.py.
pub mod Tiling
pub mod Provenance
pub mod Raising
use mathlib.Core.List.{reverse}
use ragent.Common.{
  ℕ, zero, suc, ◌+◌, ◌-◌, min, String, Bool, false, ◌&&◌, not, Option, none, some, List, [], ◌∷◌,
  ◌++◌, ◌||◌, map, ltb, leb, if◌then◌else◌, length, is_empty, contains,
}
use ragent.Ingest.Text.{Text, slice, find, words_of}
use ragent.Ingest.Types.{SourceBlock, Chunk}
use ragent.Ingest.Chunking.{
  TokenCounter, Span, flatten, blocks_in_range, prepare, assemble, assemble_raises, append_chunk,
}

-- _SEPARATORS
abbrev pub separators : List Text
separators =
    (10 ∷ 10 ∷ [])
    ∷ (10 ∷ [])
    ∷ (b'.' ∷ b' ' ∷ [])
    ∷ (b';' ∷ b' ' ∷ [])
    ∷ (b',' ∷ b' ' ∷ [])
    ∷ (b' ' ∷ [])
    ∷ []

-- `for p_start, p_end in pieces: out.extend(f(p_start, p_end))`
abbrev pub spread : (ℕ → ℕ → List (ℕ × ℕ)) → List (ℕ × ℕ) → List (ℕ × ℕ)
spread f [] = []
spread f ((start, end) ∷ rest) = f start end ++ spread f rest

module _ (doc : Text) where
  -- The `while` loop that cuts behind every separator, with fuel.
  unfoldable pub cut : Text → ℕ → ℕ → ℕ → List (ℕ × ℕ)
  cut sep zero cursor end = []
  cut sep (suc fuel) cursor end = if leb end cursor then [] else elim (find doc sep cursor end) [
    | none ↦ (cursor, end) ∷ []
    | some found ↦
        let stop = found + length sep in
        let rest = cut sep fuel stop end in if ltb cursor stop then (cursor, stop) ∷ rest else rest
  ]

  module _ (target : ℕ) (count_tokens : TokenCounter) where
    unfoldable pub split_recursive : List Text → ℕ → ℕ → List (ℕ × ℕ)
    split_recursive [] start end = (start, end) ∷ []
    split_recursive (sep ∷ rest) start end =
        let pieces = cut sep (end - start + 1) start end in
        let whole = split_recursive rest start end in
        let parts = spread (split_recursive rest) pieces in
        if leb (count_tokens (slice doc start end)) target
        then (start, end) ∷ []
        else if leb (length pieces) 1
        then whole
        else parts

    -- What the packing loop carries: `cur_start`, `cur_end` and `cur_tokens`, beside the chunks.
    pub record Packing : Type 0 where
      pub chunks : List Chunk
      pub cur_start : Option ℕ
      pub cur_end : ℕ
      pub cur_tokens : ℕ

    module _ (spans : List Span) where
      unfoldable pub window_chunk : ℕ → ℕ → ℕ → Option Chunk
      window_chunk seq start end =
          assemble seq (slice doc start end) (blocks_in_range spans start end) "recursive"
            count_tokens

      unfoldable pub flush : Packing → Packing
      flush p = elim p.cur_start [
        | none ↦ p
        | some start ↦ record {
          chunks = append_chunk p.chunks (window_chunk (length p.chunks) start p.cur_end);
          cur_start = none;
          cur_end = 0;
          cur_tokens = 0;
        }
      ]

      unfoldable pub is_full : Packing → ℕ → Bool
      is_full p cost = elim p.cur_start [ none ↦ false | some _ ↦ ltb target (p.cur_tokens + cost) ]

      -- The body of the packing loop.
      unfoldable pub pack_piece : Packing → ℕ × ℕ → Packing
      unfolding flush is_full
      pack_piece p (start, end) =
          let cost = count_tokens (slice doc start end) in
          let q = if is_full p cost then flush p else p in
          record {
            chunks = q.chunks;
            cur_start = elim q.cur_start [ none ↦ some start | some s ↦ some s ];
            cur_end = end;
            cur_tokens = q.cur_tokens + cost;
          }

      -- Whether one of the calls of `_assemble` raises.
      unfoldable pub flush_raises : Packing → Bool
      flush_raises p = elim p.cur_start [
        | none ↦ false
        | some start ↦
            assemble_raises (slice doc start p.cur_end) (blocks_in_range spans start p.cur_end)
      ]

      unfoldable pub pack_raises : Packing → List (ℕ × ℕ) → Bool
      pack_raises p [] = flush_raises p
      pack_raises p (piece ∷ rest) =
          is_full p (count_tokens (slice doc piece.0 piece.1)) && flush_raises p
          || pack_raises (pack_piece p piece) rest

      unfoldable pub pack : Packing → List (ℕ × ℕ) → List Chunk
      pack p [] = (flush p).chunks
      pack p (piece ∷ rest) = pack (pack_piece p piece) rest

-- `list(dict.fromkeys(ids))`
unfoldable pub unique_from : List String → List String → List String
unique_from seen [] = []
unique_from seen (i ∷ rest) =
    let fresh = unique_from (i ∷ seen) rest in
    let old = unique_from seen rest in if contains seen i then old else i ∷ fresh

-- `xs[-1:]`
abbrev pub last_of {ℓ} : {A : Type ℓ} → List A → List A
last_of [] = []
last_of (x ∷ []) = x ∷ []
last_of (x ∷ y ∷ rest) = last_of (y ∷ rest)

-- The loop over the reversed words, which puts each in front of the tail while the budget lasts.
unfoldable pub tail_words : TokenCounter → ℕ → ℕ → List Text → List Text → List Text
tail_words count_tokens overlap budget [] tail = tail
tail_words count_tokens overlap budget (w ∷ rest) tail =
    let more = tail_words count_tokens overlap (budget + count_tokens w) rest (w ∷ tail) in
    if ltb overlap (budget + count_tokens w) then tail else more

-- `" ".join(tail)`
unfoldable pub join_words : List Text → Text
join_words [] = []
join_words (w ∷ []) = w
join_words (w ∷ v ∷ rest) = w ++ (b' ' ∷ join_words (v ∷ rest))

abbrev min_if_both : Option ℕ → Option ℕ → Option ℕ
min_if_both (some a) (some b) = some (min a b)
min_if_both _ b = b

-- `min(prev.char_end or 0, cur.char_start) if cur.char_start is not None else None`
abbrev earliest : Option ℕ → Option ℕ → Option ℕ
earliest none (some b) = some 0
earliest (some a) (some b) = some (min a b)
earliest _ none = none

-- The body of the loop of `_apply_text_overlap`.
unfoldable pub overlap_text : TokenCounter → ℕ → String → Chunk → Chunk → Chunk
overlap_text count_tokens overlap strategy prev cur =
    let words = map (λ (w : ℕ × ℕ). slice prev.text w.0 w.1) (words_of prev.text) in
    let tail = tail_words count_tokens overlap 0 (reverse words) [] in
    let merged_text = join_words tail ++ (b' ' ∷ cur.text) in
    if is_empty tail then cur else record {
      seq = cur.seq;
      text = merged_text;
      block_ids = unique_from [] (last_of prev.block_ids ++ cur.block_ids);
      token_count = count_tokens merged_text;
      page_from = min_if_both prev.page_to cur.page_from;
      page_to = cur.page_to;
      char_start = earliest prev.char_end cur.char_start;
      char_end = cur.char_end;
      section_path = cur.section_path;
      context_prefix = none;
      strategy = strategy;
      meta = record { atomic = none };
    }

unfoldable pub overlap_from : TokenCounter → ℕ → String → Chunk → List Chunk → List Chunk
overlap_from count_tokens overlap strategy prev [] = []
overlap_from count_tokens overlap strategy prev (cur ∷ rest) =
    overlap_text count_tokens overlap strategy prev cur
    ∷ overlap_from count_tokens overlap strategy cur rest

unfoldable pub apply_text_overlap : TokenCounter → ℕ → String → List Chunk → List Chunk
unfolding overlap_from
apply_text_overlap count_tokens overlap strategy [] = []
apply_text_overlap count_tokens overlap strategy (c ∷ rest) =
    c ∷ overlap_from count_tokens overlap strategy c rest

-- The chunks of `chunk_recursive`, where no call raises.
unfoldable pub recursive_chunks : TokenCounter → ℕ → ℕ → List SourceBlock → List Chunk
recursive_chunks count_tokens target overlap blocks =
    let (doc, spans) = flatten (prepare blocks) in
    let pieces = split_recursive doc target count_tokens separators 0 (length doc) in
    let chunks =
      pack doc target count_tokens spans
        (record { chunks = []; cur_start = none; cur_end = 0; cur_tokens = 0 }) pieces in
    if is_empty doc
    then []
    else if ltb 0 overlap
    then apply_text_overlap count_tokens overlap "recursive" chunks
    else chunks

unfoldable pub recursive_raises : TokenCounter → ℕ → List SourceBlock → Bool
recursive_raises count_tokens target blocks =
    let (doc, spans) = flatten (prepare blocks) in
    not (is_empty doc)
    && pack_raises doc target count_tokens spans
        (record { chunks = []; cur_start = none; cur_end = 0; cur_tokens = 0 })
        (split_recursive doc target count_tokens separators 0 (length doc))

-- `none` is the TypeError.
unfoldable pub chunk_recursive : TokenCounter → ℕ → ℕ → List SourceBlock → Option (List Chunk)
chunk_recursive count_tokens target overlap blocks =
    if recursive_raises count_tokens target blocks
    then none
    else some (recursive_chunks count_tokens target overlap blocks)
