-- ===== src/Ingest/Chunking/Fixed/Raising.antt =====
-- `chunk_fixed` raises only over a block that has a start and no end.
use ragent.Common.{ℕ, zero, suc, ◌+◌, ◌≡◌, refl, false, List, map, arith, length}
use ragent.Ingest.Text.{Text, slice, words_of}
use ragent.Ingest.Types.{SourceBlock}
use ragent.Ingest.Chunking.{TokenCounter, Span, flatten, blocks_in_range, prepare, is_open}
use ragent.Ingest.Chunking.Assembly.{
  AreClosed, EachSpan, assemble_raises-closed, Each-prepare, Each-flatten, Each-blocks_in_range,
}
use ragent.Ingest.Chunking.Fixed.{
  start_of, end_of, fit_window, next_start, fixed_from_raises, fixed_raises,
}

module _ (doc : Text) (words : List (ℕ × ℕ)) (costs : List ℕ) (target overlap : ℕ)
    (count_tokens : TokenCounter) (spans : List Span)
    (closed : EachSpan (λ (b : SourceBlock). is_open b ≡ false) spans) where
  fixed_from_raises-closed :
      (fuel i : ℕ)
      → fixed_from_raises doc words costs target overlap count_tokens spans fuel i ≡ false
  unfolding fixed_from_raises
  fixed_from_raises-closed zero i = refl
  fixed_from_raises-closed (suc fuel) i =
      let j = fit_window doc words costs target overlap count_tokens i in
      let start = start_of doc words costs target overlap count_tokens i in
      let end = end_of doc words costs target overlap count_tokens j in
      rw
        (
          assemble_raises-closed (slice doc start end) (blocks_in_range spans start end) (
              Each-blocks_in_range (λ (b : SourceBlock). is_open b ≡ false) spans start end closed),
          fixed_from_raises-closed fuel
              (next_start doc words costs target overlap count_tokens i j),
        )
        (ground arith)

pub fixed_raises-closed :
    (count_tokens : TokenCounter) (target overlap : ℕ) (blocks : List SourceBlock)
    → AreClosed blocks
    → fixed_raises count_tokens target overlap blocks ≡ false
unfolding fixed_raises
fixed_raises-closed count_tokens target overlap blocks h =
    let P = λ (b : SourceBlock). is_open b ≡ false in
    let (doc, spans) = flatten (prepare blocks) in
    let words = words_of doc in
    let costs = map (λ (w : ℕ × ℕ). count_tokens (slice doc w.0 w.1)) words in
    ground (
      arith,
      fixed_from_raises-closed doc words costs target overlap count_tokens spans
          (Each-flatten P (prepare blocks) (Each-prepare P blocks h)) (length words + 1) 0,
    )
