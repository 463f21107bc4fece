-- ===== src/Ingest/Chunking/Fixed/Provenance.antt =====
-- The chunks of `chunk_fixed` know the blocks that they were drawn from.
use ragent.Common.{
  ℕ, zero, suc, ◌+◌, ◌≡◌, subst, inl, inr, String, ◌||◌, Option, none, some, List, [], map, leb,
  length, is_empty, Bool-cases,
}
use ragent.Ingest.Text.{Text, slice, words_of}
use ragent.Ingest.Types.{SourceBlock, Chunk}
use ragent.Ingest.Chunking.{TokenCounter, Span, flatten, prepare, blocks_in_range, append_chunk}
use ragent.Ingest.Chunking.Assembly.{
  IsSound, Outcome, outcome_of, IsNext, FromKnown, append_chunk-IsSound, assemble-IsNext,
  Each-prepare, Each-flatten, Each-blocks_in_range, EachSpan,
}
use ragent.Ingest.Chunking.Fixed.Coverage.{fixed_chunks_total}
use ragent.Ingest.Chunking.Fixed.Raising.{fixed_raises-closed}
use ragent.Ingest.Chunking.Fixed.{
  start_of, end_of, fit_window, next_start, window_chunk, fixed_from, fixed_chunks, fixed_raises,
  chunk_fixed,
}

-- What holds of a list of chunks, where there is one.
abbrev pub Returns : (List Chunk → Type 0) → Option (List Chunk) → Type 0
Returns P none = Unit
Returns P (some chunks) = P chunks

module _ (Known : String → Type 0) (doc : Text) (words : List (ℕ × ℕ)) (costs : List ℕ)
    (target overlap : ℕ) (count_tokens : TokenCounter) (spans : List Span)
    (known : EachSpan (λ (b : SourceBlock). Known b.id) spans) where
  window_chunk-IsNext :
      (seq i j : ℕ)
      → IsNext Known seq (window_chunk doc words costs target overlap count_tokens spans seq i j)
  unfolding window_chunk
  window_chunk-IsNext seq i j =
      let start = start_of doc words costs target overlap count_tokens i in
      let end = end_of doc words costs target overlap count_tokens j in
      assemble-IsNext Known seq (slice doc start end) (blocks_in_range spans start end) "fixed"
        count_tokens (Each-blocks_in_range (λ (b : SourceBlock). Known b.id) spans start end known)

  pub fixed_from-IsSound :
      (fuel i : ℕ) (chunks : List Chunk)
      → IsSound Known chunks
      → Returns
          (IsSound Known)
          (fixed_from doc words costs target overlap count_tokens spans fuel i chunks)
  unfolding fixed_from
  fixed_from-IsSound zero i chunks sound = tt
  fixed_from-IsSound (suc fuel) i chunks sound =
      let j = fit_window doc words costs target overlap count_tokens i in
      let next =
        window_chunk doc words costs target overlap count_tokens spans (length chunks) i j in
      let sound' =
        append_chunk-IsSound Known chunks next sound (window_chunk-IsNext (length chunks) i j) in
      let rest =
        fixed_from-IsSound fuel (next_start doc words costs target overlap count_tokens i j)
          (append_chunk chunks next) sound' in
      elim (Bool-cases (leb (length words) i)) [
        | inl done ↦ rw done sound
        | inr more ↦ elim (Bool-cases (leb (length words) j)) [
          | inl last ↦ rw (more, last) sound'
          | inr go ↦ rw (more, go) rest
        ]
      ]

fixed_chunks-Returns :
    (Known : String → Type 0) (count_tokens : TokenCounter) (target overlap : ℕ)
    (blocks : List SourceBlock)
    → FromKnown Known blocks
    → Returns (IsSound Known) (fixed_chunks count_tokens target overlap blocks)
unfolding fixed_chunks
fixed_chunks-Returns Known count_tokens target overlap blocks known =
    let (doc, spans) = flatten (prepare blocks) in
    let words = words_of doc in
    let costs = map (λ (w : ℕ × ℕ). count_tokens (slice doc w.0 w.1)) words in
    let P = λ (b : SourceBlock). Known b.id in
    let from = Each-flatten P (prepare blocks) (Each-prepare P blocks known) in
    elim (Bool-cases (is_empty doc || is_empty words)) [
      | inl nothing ↦ rw nothing (tt, tt)
      | inr something ↦ rw something (
          fixed_from-IsSound Known doc words costs target overlap count_tokens spans from
            (length words + 1) 0 [] (tt, tt))
    ]

-- For any token counter, budget and overlap, `fixed_chunks` returns, and its chunks are numbered from
-- 0, hold text, and name at least one block each. Every id that they name satisfies whatever the ids
-- of the document's blocks satisfy, so it is one of them.
fixed_chunks-IsSound :
    (Known : String → Type 0) (count_tokens : TokenCounter) (target overlap : ℕ)
    (blocks : List SourceBlock)
    → FromKnown Known blocks
    → (chunks : List Chunk) × (fixed_chunks count_tokens target overlap blocks ≡ some chunks)
      × IsSound Known chunks
fixed_chunks-IsSound Known count_tokens target overlap blocks known =
    let (chunks, e) = fixed_chunks_total count_tokens target overlap blocks in
    (
      chunks,
      e,
      subst (Returns (IsSound Known)) e
          (fixed_chunks-Returns Known count_tokens target overlap blocks known),
    )

-- For any token counter, budget and overlap, `chunk_fixed` either raises, and then some block has a
-- start and no end, or returns chunks that are numbered from 0, hold text, and name at least one block
-- each. Every id that they name satisfies whatever the ids of the document's blocks satisfy. So without
-- such a block it returns, and does not run out of fuel.
pub chunk_fixed-IsSound :
    (Known : String → Type 0) (count_tokens : TokenCounter) (target overlap : ℕ)
    (blocks : List SourceBlock)
    → FromKnown Known blocks
    → Outcome (IsSound Known) blocks (chunk_fixed count_tokens target overlap blocks)
unfolding chunk_fixed
chunk_fixed-IsSound Known count_tokens target overlap blocks known =
    let (chunks, e, sound) = fixed_chunks-IsSound Known count_tokens target overlap blocks known in
    rw e (
      outcome_of (IsSound Known) blocks (fixed_raises count_tokens target overlap blocks) chunks
        (fixed_raises-closed count_tokens target overlap blocks) sound)
