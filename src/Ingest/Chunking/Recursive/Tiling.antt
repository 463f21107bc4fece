-- ===== src/Ingest/Chunking/Recursive/Tiling.antt =====
-- The pieces of `_split_recursive` lie end to end.
use ragent.Common.{
  ℕ, zero, suc, ◌+◌, ◌-◌, ◌≤◌, ◌<◌, ◌≡◌, refl, sym, subst, inl, inr, true, Option, none, some, List,
  [], ◌∷◌, ◌++◌, arith, leb, ltb, if◌then◌else◌, length, Bool-cases, Each,
}
use ragent.Ingest.Text.{Text, slice, find}
use ragent.Ingest.Text.Laws.{find_bounds}
use ragent.Ingest.Chunking.{TokenCounter}
use ragent.Ingest.Chunking.Recursive.{spread, cut, split_recursive}

-- Pieces that hold text and lie end to end from `start` to `end`.
abbrev pub Tiles : ℕ → ℕ → List (ℕ × ℕ) → Type 0
Tiles start end [] = start ≡ end
Tiles start end ((from, to) ∷ rest) = (from ≡ start) × (from < to) × Tiles to end rest

abbrev pub Separates : Text → Type 0
Separates sep = 1 ≤ length sep

Tiles-append :
    (start middle end : ℕ) (xs ys : List (ℕ × ℕ))
    → Tiles start middle xs
    → Tiles middle end ys
    → Tiles start end (xs ++ ys)
Tiles-append start middle end [] ys e h = subst (λ at. Tiles at end ys) (sym e) h
Tiles-append start middle end ((from, to) ∷ xs) ys (e, lt, t) h =
    (e, lt, Tiles-append to middle end xs ys t h)

Tiles-le : (start end : ℕ) (xs : List (ℕ × ℕ)) → Tiles start end xs → start ≤ end
Tiles-le start end [] e = omega arith
Tiles-le start end ((from, to) ∷ xs) (e, lt, t) = omega (arith, Tiles-le to end xs t)

module _ (doc : Text) where
  cut-Tiles :
      (sep : Text) (fuel cursor end : ℕ)
      → Separates sep
      → cursor ≤ end
      → end < fuel + cursor
      → Tiles cursor end (cut doc sep fuel cursor end)
  unfolding cut
  cut-Tiles sep zero cursor end wide le fuelled = absurd (omega arith)
  cut-Tiles sep (suc fuel) cursor end wide le fuelled = elim (Bool-cases (leb end cursor)) [
    | inl done ↦ rw done (ground (arith))
    | inr more ↦ rw more (
        at_find (ground (arith))
          (λ stop to moves. cut-Tiles sep fuel stop end wide to (omega arith))
          (find doc sep cursor end) refl)
  ]
    where
      at_find :
          cursor < end
          → ((stop : ℕ) → stop ≤ end → cursor < stop → Tiles stop end (cut doc sep fuel stop end))
          → (o : Option ℕ) → find doc sep cursor end ≡ o
          → Tiles cursor end (elim o [
            | none ↦ (cursor, end) ∷ []
            | some found ↦
                let stop = found + length sep in
                let rest = cut doc sep fuel stop end in
                if ltb cursor stop then (cursor, stop) ∷ rest else rest
          ])
      at_find lt below none e = (refl, lt, refl)
      at_find lt below (some found) e =
          let (from, to) = find_bounds doc sep cursor end found le e in
          let stop = found + length sep in
          let rest = below stop to (omega arith) in
          let moved : ltb cursor stop ≡ true = ground (arith) in rw moved (refl, omega arith, rest)

  module _ (target : ℕ) (count_tokens : TokenCounter) where
    spread-Tiles :
        (f : ℕ → ℕ → List (ℕ × ℕ))
        → ((from to : ℕ) → from < to → Tiles from to (f from to))
        → (start end : ℕ) (pieces : List (ℕ × ℕ)) → Tiles start end pieces
        → Tiles start end (spread f pieces)
    spread-Tiles f h start end [] e = e
    spread-Tiles f h start end ((from, to) ∷ rest) (e, lt, t) =
        Tiles-append start to end (f from to) (spread f rest)
          (subst (λ at. Tiles at to (f from to)) e (h from to lt)) (spread-Tiles f h to end rest t)

    -- However `_split_recursive` descends its separators, which hold at least a character each, the
    -- pieces of a range that holds text lie end to end over it: no character is lost or doubled, and
    -- no piece is empty.
    pub split_recursive-Tiles :
        (seps : List Text)
        → Each Separates seps
        → (start end : ℕ) → start < end
        → Tiles start end (split_recursive doc target count_tokens seps start end)
    unfolding split_recursive
    split_recursive-Tiles [] h start end lt = (refl, lt, refl)
    split_recursive-Tiles (sep ∷ rest) (wide, h) start end lt =
        let pieces = cut doc sep (end - start + 1) start end in
        let fits = leb (count_tokens (slice doc start end)) target in
        elim (Bool-cases fits) [
          | inl whole ↦ rw whole (refl, lt, refl)
          | inr large ↦ elim (Bool-cases (leb (length pieces) 1)) [
            | inl one ↦ rw (large, one) (split_recursive-Tiles rest h start end lt)
            | inr many ↦
                rw (large, many)
                  (spread-Tiles (split_recursive doc target count_tokens rest)
                    (split_recursive-Tiles rest h) start end pieces
                    (cut-Tiles sep (end - start + 1) start end wide (omega arith) (omega arith)))
          ]
        ]
