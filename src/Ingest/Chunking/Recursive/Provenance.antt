-- ===== src/Ingest/Chunking/Recursive/Provenance.antt =====
-- The chunks of `chunk_recursive` know the blocks that they were drawn from, also those of the
-- overlap.
use ragent.Common.{
  ℕ, ◌+◌, ◌≡◌, refl, ◌∙◌, inl, inr, String, false, Option, none, some, List, [], ◌∷◌, ◌++◌, map,
  ltb, length, is_empty, Bool-cases, Each, Each-append, contains,
}
use ragent.Ingest.Text.{Text, slice, words_of}
use ragent.Ingest.Types.{SourceBlock, Chunk}
use ragent.Ingest.Chunking.{TokenCounter, Span, flatten, prepare, blocks_in_range, append_chunk}
use ragent.Ingest.Chunking.Assembly.{
  IsSound, Outcome, outcome_of, IsTraced, IsNext, Numbered, FromKnown, append_chunk-IsSound,
  assemble-IsNext, Each-prepare, Each-flatten, Each-blocks_in_range, EachSpan,
}
use ragent.Ingest.Chunking.Recursive.Raising.{recursive_raises-closed}
use ragent.Ingest.Chunking.Recursive.{
  Packing, window_chunk, flush, is_full, pack_piece, pack, unique_from, last_of, join_words,
  tail_words, overlap_text, overlap_from, apply_text_overlap, split_recursive, separators,
  recursive_chunks, recursive_raises, chunk_recursive,
}
use mathlib.Core.List.{reverse}

module _ (Known : String → Type 0) (doc : Text) (target : ℕ) (count_tokens : TokenCounter)
    (spans : List Span) (known : EachSpan (λ (b : SourceBlock). Known b.id) spans) where
  window_chunk-IsNext :
      (seq start end : ℕ)
      → IsNext Known seq (window_chunk doc target count_tokens spans seq start end)
  unfolding window_chunk
  window_chunk-IsNext seq start end =
      assemble-IsNext Known seq (slice doc start end) (blocks_in_range spans start end) "recursive"
        count_tokens (Each-blocks_in_range (λ (b : SourceBlock). Known b.id) spans start end known)

  flush-IsSound :
      (p : Packing doc target count_tokens)
      → IsSound Known p.chunks
      → IsSound Known (flush doc target count_tokens spans p).chunks
  unfolding flush
  flush-IsSound p sound = at_start p.cur_start
    where
      at_start :
          (o : Option ℕ)
          → IsSound Known
              (elim o as (λ _. Packing doc target count_tokens) [
                | none ↦ p
                | some start ↦ record {
                  chunks = append_chunk p.chunks (
                      window_chunk doc target count_tokens spans (length p.chunks) start p.cur_end);
                  cur_start = none;
                  cur_end = 0;
                  cur_tokens = 0;
                }
              ]).chunks
      at_start none = sound
      at_start (some start) =
          append_chunk-IsSound Known p.chunks
            (window_chunk doc target count_tokens spans (length p.chunks) start p.cur_end) sound
            (window_chunk-IsNext (length p.chunks) start p.cur_end)

  pack_piece-IsSound :
      (p : Packing doc target count_tokens) (piece : ℕ × ℕ)
      → IsSound Known p.chunks
      → IsSound Known (pack_piece doc target count_tokens spans p piece).chunks
  unfolding pack_piece
  pack_piece-IsSound p (start, end) sound =
      elim (Bool-cases
        (is_full doc target count_tokens spans p (count_tokens (slice doc start end)))) [
          | inl full ↦ rw full (flush-IsSound p sound)
          | inr room ↦ rw room sound
        ]

  pub pack-IsSound :
      (p : Packing doc target count_tokens) (pieces : List (ℕ × ℕ))
      → IsSound Known p.chunks
      → IsSound Known (pack doc target count_tokens spans p pieces)
  unfolding pack
  pack-IsSound p [] sound = flush-IsSound p sound
  pack-IsSound p (piece ∷ rest) sound =
      pack-IsSound (pack_piece doc target count_tokens spans p piece) rest
        (pack_piece-IsSound p piece sound)

module _ (Known : String → Type 0) where
  pub last_of-Each : (ids : List String) → Each Known ids → Each Known (last_of ids)
  last_of-Each [] h = tt
  last_of-Each (i ∷ []) h = h
  last_of-Each (i ∷ j ∷ rest) (_, h) = last_of-Each (j ∷ rest) h

  unique_from-Each : (seen ids : List String) → Each Known ids → Each Known (unique_from seen ids)
  unfolding unique_from
  unique_from-Each seen [] h = tt
  unique_from-Each seen (i ∷ rest) (k, h) = elim (Bool-cases (contains seen i)) [
    | inl old ↦ rw old (unique_from-Each seen rest h)
    | inr fresh ↦ rw fresh (k, unique_from-Each (i ∷ seen) rest h)
  ]

-- `dict.fromkeys` of some ids keeps one.
unique_from_some :
    (front ids : List String)
    → is_empty ids ≡ false
    → is_empty (unique_from [] (front ++ ids)) ≡ false
unfolding unique_from
unique_from_some [] [] h = h
unique_from_some [] (i ∷ ids) h = refl
unique_from_some (j ∷ front) ids h = refl

text_some : (front : Text) (c : ℕ) (text : Text) → is_empty (front ++ c ∷ text) ≡ false
text_some [] c text = refl
text_some (d ∷ front) c text = refl

module _ (Known : String → Type 0) (count_tokens : TokenCounter) (overlap : ℕ)
    (strategy : String) where
  overlap_text-IsTraced :
      (prev cur : Chunk)
      → IsTraced Known prev
      → IsTraced Known cur
      → ((overlap_text count_tokens overlap strategy prev cur).seq ≡ cur.seq)
        × IsTraced Known (overlap_text count_tokens overlap strategy prev cur)
  unfolding overlap_text
  overlap_text-IsTraced prev cur (_, _, before) (text, some_ids, ids) =
      let words = map (λ (w : ℕ × ℕ). slice prev.text w.0 w.1) (words_of prev.text) in
      let tail = tail_words count_tokens overlap 0 (reverse words) [] in
      elim (Bool-cases (is_empty tail)) [
        | inl nothing ↦ rw nothing (refl, (text, some_ids, ids))
        | inr something ↦ rw something (
          refl,
          (
            text_some (join_words tail) b' ' cur.text,
            unique_from_some (last_of prev.block_ids) cur.block_ids some_ids,
            unique_from-Each Known [] (last_of prev.block_ids ++ cur.block_ids) (
                Each-append Known (last_of prev.block_ids) cur.block_ids
                  (last_of-Each Known prev.block_ids before, ids)),
          ),
        )
      ]

  overlap_from-IsSound :
      (n : ℕ) (prev : Chunk) (chunks : List Chunk)
      → IsTraced Known prev
      → Numbered n chunks
      → Each (IsTraced Known) chunks
      → Numbered n (overlap_from count_tokens overlap strategy prev chunks)
        × Each (IsTraced Known) (overlap_from count_tokens overlap strategy prev chunks)
  unfolding overlap_from
  overlap_from-IsSound n prev [] before numbered traced = (tt, tt)
  overlap_from-IsSound n prev (cur ∷ rest) before (e, numbered) (t, traced) =
      let (same, here) = overlap_text-IsTraced prev cur before t in
      let (counts, all) = overlap_from-IsSound (n + 1) cur rest t numbered traced in
      ((same ∙ e, counts), (here, all))

  apply_text_overlap-IsSound :
      (chunks : List Chunk)
      → IsSound Known chunks
      → IsSound Known (apply_text_overlap count_tokens overlap strategy chunks)
  unfolding apply_text_overlap
  apply_text_overlap-IsSound [] sound = sound
  apply_text_overlap-IsSound (c ∷ rest) ((e, numbered), (t, traced)) =
      let (counts, all) = overlap_from-IsSound 1 c rest t numbered traced in ((e, counts), (t, all))

-- For any token counter, budget and overlap: the chunks of `recursive_chunks` are numbered from 0,
-- hold text, and name at least one block each. Every id that they name satisfies whatever the ids of
-- the document's blocks satisfy, so it is one of them, also where the tail of the chunk before has
-- been put in front.
recursive_chunks-IsSound :
    (Known : String → Type 0) (count_tokens : TokenCounter) (target overlap : ℕ)
    (blocks : List SourceBlock)
    → FromKnown Known blocks
    → IsSound Known (recursive_chunks count_tokens target overlap blocks)
unfolding recursive_chunks
recursive_chunks-IsSound Known count_tokens target overlap blocks known =
    let (doc, spans) = flatten (prepare blocks) in
    let P = λ (b : SourceBlock). Known b.id in
    let pieces = split_recursive doc target count_tokens separators 0 (length doc) in
    let start : Packing doc target count_tokens = record {
      chunks = [];
      cur_start = none;
      cur_end = 0;
      cur_tokens = 0;
    } in
    let sound =
      pack-IsSound Known doc target count_tokens spans
        (Each-flatten P (prepare blocks) (Each-prepare P blocks known)) start pieces (tt, tt) in
    let chunks = pack doc target count_tokens spans start pieces in
    elim (Bool-cases (is_empty doc)) [
      | inl nothing ↦ rw nothing (tt, tt)
      | inr something ↦ elim (Bool-cases (ltb 0 overlap)) [
        | inl overlaps ↦
            rw (something, overlaps)
              (apply_text_overlap-IsSound Known count_tokens overlap "recursive" chunks sound)
        | inr apart ↦ rw (something, apart) sound
      ]
    ]

-- For any token counter, budget and overlap, `chunk_recursive` either raises, and then some block has
-- a start and no end, or returns chunks that are numbered from 0, hold text, and name at least one
-- block each. Every id that they name satisfies whatever the ids of the document's blocks satisfy, so
-- it is one of them, also where the tail of the chunk before has been put in front.
pub chunk_recursive-IsSound :
    (Known : String → Type 0) (count_tokens : TokenCounter) (target overlap : ℕ)
    (blocks : List SourceBlock)
    → FromKnown Known blocks
    → Outcome (IsSound Known) blocks (chunk_recursive count_tokens target overlap blocks)
unfolding chunk_recursive
chunk_recursive-IsSound Known count_tokens target overlap blocks known =
    outcome_of (IsSound Known) blocks (recursive_raises count_tokens target blocks)
      (recursive_chunks count_tokens target overlap blocks)
      (recursive_raises-closed count_tokens target blocks)
      (recursive_chunks-IsSound Known count_tokens target overlap blocks known)
