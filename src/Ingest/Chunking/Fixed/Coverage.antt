-- ===== src/Ingest/Chunking/Fixed/Coverage.antt =====
-- `fixed_chunks` ends, and its windows hold every word of the document.
use ragent.Common.{
  ℕ, zero, suc, ◌+◌, ◌≤◌, ◌<◌, ◌≡◌, ◌⊎◌, inl, inr, ◌||◌, some, List, [], ◌∷◌, arith, ltb, leb,
  length, Bool-cases, Each, is_empty, map,
}
use ragent.Ingest.Text.{Text, slice, words_of}
use ragent.Ingest.Types.{SourceBlock, Chunk}
use ragent.Ingest.Chunking.{TokenCounter, Span, append_chunk, flatten, prepare}
use ragent.Ingest.Chunking.Fixed.{fit_window, next_start, window_chunk, fixed_from, fixed_chunks}
use ragent.Ingest.Chunking.Fixed.Windows.{window_text, fit_window_bounds, next_start_bounds}

-- Some window holds word `x`.
abbrev pub Holds : ℕ → List (ℕ × ℕ) → Type 0
Holds x [] = ⊥
Holds x ((i, j) ∷ rest) = (i ≤ x) × (x < j) ⊎ Holds x rest

module _ (doc : Text) (words : List (ℕ × ℕ)) (costs : List ℕ) (target overlap : ℕ)
    (count_tokens : TokenCounter) (spans : List Span) where
  -- The chunks of a list of windows, behind those that there are.
  abbrev pub emit : List Chunk → List (ℕ × ℕ) → List Chunk
  emit chunks [] = chunks
  emit chunks ((i, j) ∷ rest) =
      emit
        (append_chunk chunks
          (window_chunk doc words costs target overlap count_tokens spans (length chunks) i j))
        rest

  -- A window holds a word, lies in the document, and fits the budget unless it is one word.
  abbrev pub Fits : ℕ × ℕ → Type 0
  Fits (i, j) =
      (i < j)
      × (j ≤ length words)
      × ((j ≡ i + 1)
          ⊎ (count_tokens (window_text doc words costs target overlap count_tokens i j) ≤ target))

  -- The loop of `fixed_chunks` from word `i` ends within its fuel. Its chunks are those of windows
  -- that each fit the token budget unless they are one word, and together hold every word from `i`
  -- on.
  pub fixed_from_covers :
      (fuel i : ℕ) (chunks : List Chunk)
      → i < length words
      → length words < fuel + i
      → (windows : List (ℕ × ℕ)) × (fixed_from doc words costs target overlap count_tokens spans
            fuel i chunks
          ≡ some (emit chunks windows))
        × Each Fits windows
        × ((x : ℕ) → i ≤ x → x < length words → Holds x windows)
  unfolding fixed_from
  fixed_from_covers zero i chunks h fuelled = absurd (omega arith)
  fixed_from_covers (suc fuel) i chunks h fuelled =
      let j = fit_window doc words costs target overlap count_tokens i in
      let fits = fit_window_bounds doc words costs target overlap count_tokens i h in
      let chunks' =
        append_chunk chunks
          (window_chunk doc words costs target overlap count_tokens spans (length chunks) i j) in
      elim (Bool-cases (leb (length words) j)) [
        | inl last ↦
            ((i, j) ∷ [], ground (arith), (fits, tt), λ x from below. inl (from, ground arith))
        | inr more ↦
            let i' = next_start doc words costs target overlap count_tokens i j in
            let moves = next_start_bounds doc words costs target overlap count_tokens i j fits.0 in
            let (windows, e, all, held) =
              fixed_from_covers fuel i' chunks' (ground (arith)) (omega (arith, moves)) in
            (
              (i, j) ∷ windows,
              ground (arith, e),
              (fits, all),
              λ x from below. elim (Bool-cases (ltb x j)) [
                | inl here ↦ inl (from, ground arith)
                | inr later ↦ inr (held x (ground arith) below)
              ],
            )
      ]

-- `fixed_chunks` returns for any counter, budget, overlap and blocks: the fuel is always enough.
pub fixed_chunks_total :
    (count_tokens : TokenCounter) (target overlap : ℕ) (blocks : List SourceBlock)
    → (chunks : List Chunk) × (fixed_chunks count_tokens target overlap blocks ≡ some chunks)
unfolding fixed_chunks
fixed_chunks_total count_tokens target overlap blocks =
    let (doc, spans) = flatten (prepare blocks) in
    let words = words_of doc in
    let costs = map (λ (w : ℕ × ℕ). count_tokens (slice doc w.0 w.1)) words in
    elim (Bool-cases (is_empty doc || is_empty words)) [
      | inl nothing ↦ ([], rw nothing)
      | inr some_words ↦
          let (windows, e, _, _) =
            fixed_from_covers doc words costs target overlap count_tokens spans (length words + 1) 0
              [] (ground (arith)) (omega arith) in
          (emit doc words costs target overlap count_tokens spans [] windows, rw (some_words, e))
    ]
