-- ===== src/Ingest/Chunking/Fixed/Windows.antt =====
-- The window of `_fit_window`, and the start of the next one.
use ragent.Common.{ℕ, zero, suc, ◌+◌, ◌-◌, ◌≤◌, ◌<◌, ◌≡◌, ◌⊎◌, List, arith, length, nth}
use ragent.Ingest.Text.{Text, slice}
use ragent.Ingest.Chunking.{TokenCounter}
use ragent.Ingest.Chunking.Fixed.{grow, scaled_end, shrink, fit_window, walk_back, next_start}

module _ (doc : Text) (words : List (ℕ × ℕ)) (costs : List ℕ) (target overlap : ℕ)
    (count_tokens : TokenCounter) where
  grow_bounds :
      (fuel j est : ℕ)
      → j ≤ length words
      → (j ≤ grow doc words costs target overlap count_tokens fuel j est)
        × (grow doc words costs target overlap count_tokens fuel j est ≤ length words)
  unfolding grow
  grow_bounds zero j est h = (omega arith, h)
  grow_bounds (suc fuel) j est h = ground (arith, grow_bounds fuel (j + 1) (est + nth costs j 0))

  scaled_end_bounds :
      (i j actual : ℕ)
      → i + 1 < j
      → (i < scaled_end doc words costs target overlap count_tokens i j actual)
        × (scaled_end doc words costs target overlap count_tokens i j actual < j)
  unfolding scaled_end
  scaled_end_bounds i j actual h = ground arith

  -- The window's text.
  abbrev pub window_text : ℕ → ℕ → Text
  window_text i j = slice doc (nth words i (0, 0)).0 (nth words (j - 1) (0, 0)).1

  shrink_bounds :
      (fuel i j : ℕ)
      → i < j
      → j ≤ i + fuel
      → (i < shrink doc words costs target overlap count_tokens fuel i j)
        × (shrink doc words costs target overlap count_tokens fuel i j ≤ j)
        × ((shrink doc words costs target overlap count_tokens fuel i j ≡ i + 1)
            ⊎ (count_tokens
                  (window_text i (shrink doc words costs target overlap count_tokens fuel i j))
                ≤ target))
  unfolding shrink
  shrink_bounds zero i j h fits = absurd (omega arith)
  shrink_bounds (suc fuel) i j h fits =
      let actual = count_tokens (window_text i j) in
      ground (
        arith,
        scaled_end_bounds i j actual,
        shrink_bounds fuel i (scaled_end doc words costs target overlap count_tokens i j actual),
      )

  -- A window of `chunk_fixed` that starts at a word holds at least that word, ends within the
  -- document, and fits the token budget as the counter measures its text, unless it is one word.
  pub fit_window_bounds :
      (i : ℕ)
      → i < length words
      → (i < fit_window doc words costs target overlap count_tokens i)
        × (fit_window doc words costs target overlap count_tokens i ≤ length words)
        × ((fit_window doc words costs target overlap count_tokens i ≡ i + 1)
            ⊎ (count_tokens
                  (window_text i (fit_window doc words costs target overlap count_tokens i))
                ≤ target))
  unfolding fit_window
  fit_window_bounds i h =
      let j = grow doc words costs target overlap count_tokens (length words - i) i 0 in
      ground (arith, grow_bounds (length words - i) i 0, shrink_bounds (length words) i j)

  walk_back_bounds :
      (i k back : ℕ)
      → i < k
      → (i < walk_back doc words costs target overlap count_tokens i k back)
        × (walk_back doc words costs target overlap count_tokens i k back ≤ k)
  unfolding walk_back
  walk_back_bounds i zero back h = absurd (omega arith)
  walk_back_bounds i (suc k) back h = ground (arith, walk_back_bounds i k (back + nth costs k 0))

  -- The next window starts behind the start of this one and not behind its end.
  pub next_start_bounds :
      (i j : ℕ)
      → i < j
      → (i < next_start doc words costs target overlap count_tokens i j)
        × (next_start doc words costs target overlap count_tokens i j ≤ j)
  unfolding next_start
  next_start_bounds i j h = ground (arith, walk_back_bounds i j 0)
