-- ===== src/Common/Sorting.antt =====
-- Insertion into an ordered list, which sorts as Python's `sorted` and as an ORDER BY whose ties keep
-- their order.
use mathlib.Core.Path.{◌≡◌, refl, ap, ◌∙◌}
use mathlib.Core.Logic.{◌⊎◌, inl, inr}
use mathlib.Core.Bool.{Bool, false}
use mathlib.Core.List.{List, [], ◌∷◌, Memᴰ}
use ragent.Common.Lists.{Each}
use ragent.Common.Tests.{if◌then◌else◌, Bool-cases}

module _ {ℓ} {A : Type ℓ} (before : A → A → Bool) where
  unfoldable pub insert_by : A → List A → List A
  insert_by a [] = a ∷ []
  insert_by a (x ∷ rest) = if before x a then x ∷ insert_by a rest else a ∷ x ∷ rest

  unfoldable pub sort_by : List A → List A
  sort_by [] = []
  sort_by (a ∷ rest) = insert_by a (sort_by rest)

  -- No item need stand before the one in front of it.
  abbrev pub InOrder : List A → Type 0
  InOrder [] = Unit
  InOrder (a ∷ []) = Unit
  InOrder (a ∷ b ∷ rest) = (before b a ≡ false) × InOrder (b ∷ rest)

  -- What is in order stays as it is.
  pub sort_by-InOrder : (xs : List A) → InOrder xs → sort_by xs ≡ xs
  unfolding sort_by insert_by
  sort_by-InOrder [] h = refl
  sort_by-InOrder (a ∷ []) h = refl
  sort_by-InOrder (a ∷ b ∷ rest) (first, h) =
      ap (insert_by a) (sort_by-InOrder (b ∷ rest) h) ∙ rw first refl

  pub mem-insert_by : (a : A) (xs : List A) (y : A) → (y ≡ a) ⊎ Memᴰ y xs → Memᴰ y (insert_by a xs)
  unfolding insert_by
  mem-insert_by a [] y (inl e) = Memᴰ.head e
  mem-insert_by a [] y (inr m) = elim m [ ]
  mem-insert_by a (x ∷ rest) y h = elim (Bool-cases (before x a)) [
    | inl earlier ↦ rw earlier (behind (mem-insert_by a rest y) h)
    | inr later ↦ rw later (at_front h)
  ]
    where
      at_front : (y ≡ a) ⊎ Memᴰ y (x ∷ rest) → Memᴰ y (a ∷ x ∷ rest)
      at_front (inl e) = Memᴰ.head e
      at_front (inr m) = Memᴰ.tail m

      behind :
          ((y ≡ a) ⊎ Memᴰ y rest → Memᴰ y (insert_by a rest))
          → (y ≡ a) ⊎ Memᴰ y (x ∷ rest)
          → Memᴰ y (x ∷ insert_by a rest)
      behind below (inl e) = Memᴰ.tail (below (inl e))
      behind below (inr (Memᴰ.head e)) = Memᴰ.head e
      behind below (inr (Memᴰ.tail m)) = Memᴰ.tail (below (inr m))

  -- Sorting loses nothing.
  pub mem-sort_by : (xs : List A) (y : A) → Memᴰ y xs → Memᴰ y (sort_by xs)
  unfolding sort_by
  mem-sort_by [] y m = elim m [ ]
  mem-sort_by (x ∷ rest) y (Memᴰ.head e) = mem-insert_by x (sort_by rest) y (inl e)
  mem-sort_by (x ∷ rest) y (Memᴰ.tail m) =
      mem-insert_by x (sort_by rest) y (inr (mem-sort_by rest y m))

  Each-insert_by {κ} :
      (Q : A → Type κ) (a : A) (xs : List A) → Q a → Each Q xs → Each Q (insert_by a xs)
  unfolding insert_by
  Each-insert_by Q a [] q h = (q, tt)
  Each-insert_by Q a (x ∷ rest) q (r, h) = elim (Bool-cases (before x a)) [
    | inl earlier ↦ rw earlier (r, Each-insert_by Q a rest q h)
    | inr later ↦ rw later (q, (r, h))
  ]

  -- Sorting adds nothing.
  pub Each-sort_by {κ} : (Q : A → Type κ) (xs : List A) → Each Q xs → Each Q (sort_by xs)
  unfolding sort_by
  Each-sort_by Q [] h = tt
  Each-sort_by Q (x ∷ rest) (q, h) = Each-insert_by Q x (sort_by rest) q (Each-sort_by Q rest h)
