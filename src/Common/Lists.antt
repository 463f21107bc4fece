-- ===== src/Common/Lists.antt =====
-- Lists measured by native numbers, filtered by a Boolean test, and predicates over them.
use Prim.Native.Nat.{ℕ, zero, suc, ◌+◌, ◌≤◌}
use mathlib.Core.Path.{◌≡◌, refl, ap, sym, ◌∙◌}
use mathlib.Core.Logic.{inl, inr}
use mathlib.Core.Bool.{Bool, true, false, ◌&&◌, ◌||◌}
use mathlib.Core.List.{List, [], ◌∷◌, ◌++◌, Memᴰ}
use mathlib.Core.Option.{Option, none, some}
use native.Mathlib.Omega.{arith}
use ragent.Common.Tests.{if◌then◌else◌, Bool-cases}

module _ {ℓ} {A : Type ℓ} where
  abbrev pub length : List A → ℕ
  length [] = 0
  length (x ∷ xs) = suc (length xs)

  abbrev pub get_elem? : List A → ℕ → Option A
  get_elem? [] i = none
  get_elem? (x ∷ xs) zero = some x
  get_elem? (x ∷ xs) (suc i) = get_elem? xs i

  -- `xs[i]`, for an index in range.
  abbrev pub nth : List A → ℕ → A → A
  nth [] i default = default
  nth (x ∷ xs) zero default = x
  nth (x ∷ xs) (suc i) default = nth xs i default

  abbrev pub is_empty : List A → Bool
  is_empty [] = true
  is_empty (x ∷ xs) = false

  abbrev pub filter : (A → Bool) → List A → List A
  filter p [] = []
  filter p (x ∷ xs) = let rest = filter p xs in if p x then x ∷ rest else rest

  abbrev pub all : (A → Bool) → List A → Bool
  all p [] = true
  all p (x ∷ xs) = p x && all p xs

  abbrev pub any : (A → Bool) → List A → Bool
  any p [] = false
  any p (x ∷ xs) = p x || any p xs

  -- A statement that holds of every item.
  abbrev pub Each {κ} : (A → Type κ) → List A → Type κ
  Each holds = elim [ [] ↦ Unit | ◌∷◌ item (items → others) ↦ holds item × others ]

  pub length-append : (xs ys : List A) → length (xs ++ ys) ≡ length xs + length ys
  length-append [] ys = omega arith
  length-append (x ∷ xs) ys = omega (arith, length-append xs ys)

  pub length-filter-le : (p : A → Bool) (xs : List A) → length (filter p xs) ≤ length xs
  length-filter-le p [] = omega arith
  length-filter-le p (x ∷ xs) = ground (arith, length-filter-le p xs)

  -- What holds of the items of two lists holds of the items of their concatenation.
  pub Each-append {κ} :
      (Q : A → Type κ) (front back : List A) → Each Q front × Each Q back → Each Q (front ++ back)
  Each-append Q [] back (_, holds) = holds
  Each-append Q (item ∷ front) back ((first, others), holds) =
      (first, Each-append Q front back (others, holds))

  pub Each-map {κ μ} :
      (P : A → Type κ) (Q : A → Type μ) (xs : List A)
      → ((x : A) → P x → Q x)
      → Each P xs
      → Each Q xs
  Each-map P Q [] f h = tt
  Each-map P Q (x ∷ xs) f h = (f x h.0, Each-map P Q xs f h.1)

  -- A filter keeps what held of every item, and adds its own test.
  pub Each-filter {κ} :
      (P : A → Type κ) (p : A → Bool) (xs : List A)
      → Each P xs
      → Each (λ x. (p x ≡ true) × P x) (filter p xs)
  Each-filter P p [] h = tt
  Each-filter P p (x ∷ xs) h = keep (p x) refl (Each-filter P p xs h.1)
    where
      keep :
          (b : Bool)
          → p x ≡ b
          → Each (λ y. (p y ≡ true) × P y) (filter p xs)
          → Each (λ y. (p y ≡ true) × P y) (if b then x ∷ filter p xs else filter p xs)
      keep true e t = ((e, h.0), t)
      keep false e t = t

  pub mem-filter_of_mem :
      (p : A → Bool) (xs : List A) {a : A} → Memᴰ a xs → p a ≡ true → Memᴰ a (filter p xs)
  mem-filter_of_mem p [] m h = elim m [ ]
  mem-filter_of_mem p (x ∷ xs) (Memᴰ.head e) h = rw (ap p (sym e) ∙ h) (Memᴰ.head e)
  mem-filter_of_mem p (x ∷ xs) {a} (Memᴰ.tail m) h = elim (Bool-cases (p x)) [
    | inl kept ↦ rw kept (Memᴰ.tail (mem-filter_of_mem p xs m h))
    | inr dropped ↦ rw dropped (mem-filter_of_mem p xs m h)
  ]

  mem-filter_at_cons :
      (p : A → Bool) (x : A) (xs ys : List A) (a : A)
      → p x ≡ true
      → (Memᴰ a ys → Memᴰ a xs × (p a ≡ true))
      → Memᴰ a (x ∷ ys)
      → Memᴰ a (x ∷ xs) × (p a ≡ true)
  mem-filter_at_cons p x xs ys a kept below (Memᴰ.head e) = (Memᴰ.head e, ap p e ∙ kept)
  mem-filter_at_cons p x xs ys a kept below (Memᴰ.tail t) = let (m, h) = below t in (Memᴰ.tail m, h)

  pub mem_of_mem-filter :
      (p : A → Bool) (xs : List A) (a : A) → Memᴰ a (filter p xs) → Memᴰ a xs × (p a ≡ true)
  mem_of_mem-filter p [] a m = elim m [ ]
  mem_of_mem-filter p (x ∷ xs) a m = elim (Bool-cases (p x)) [
    | inl kept ↦
        mem-filter_at_cons p x xs (filter p xs) a kept (mem_of_mem-filter p xs a) (rw kept at m)
    | inr dropped ↦
        let (below, h) = mem_of_mem-filter p xs a (rw dropped at m) in (Memᴰ.tail below, h)
  ]
