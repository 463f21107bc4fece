-- ===== src/Common/Names.antt =====
-- Sets of names, as lists read through a Boolean membership test: Python's `set[str]` and
-- `frozenset[str]`, whose order is never observed. Names are compared as whole texts.
use Prim.Native.String.{String}
use mathlib.Core.Path.{◌≡◌, refl}
use mathlib.Core.Logic.{inl, inr}
use mathlib.Core.Bool.{Bool, true, false, ◌&&◌, ◌||◌, not}
use mathlib.Core.List.{List, [], ◌∷◌, ◌++◌}
use native.Mathlib.Omega.{arith}
use text.Mathlib.Text.{◌==◌}
use text.Mathlib.TextEquality.{eq_iff}
use ragent.Common.Tests.{if◌then◌else◌, Bool-cases, &&-eq-true}
use ragent.Common.Lists.{filter, all, is_empty}

abbrev pub contains : List String → String → Bool
contains [] s = false
contains (x ∷ xs) s = x == s || contains xs s

-- `xs <= ys`
abbrev pub subset : List String → List String → Bool
subset xs ys = all (contains ys) xs

-- `xs & ys`
abbrev pub inter : List String → List String → List String
inter xs ys = filter (contains ys) xs

-- `xs - ys`
abbrev pub diff : List String → List String → List String
diff xs ys = filter (λ x. not (contains ys x)) xs

-- No name stands twice.
abbrev pub distinct : List String → Bool
distinct [] = true
distinct (x ∷ xs) = not (contains xs x) && distinct xs

-- Every name of the first set is in the second.
abbrev pub Subset : List String → List String → Type 0
Subset xs ys = (s : String) → contains xs s ≡ true → contains ys s ≡ true

pub contains-append :
    (xs ys : List String) (s : String) → contains (xs ++ ys) s ≡ (contains xs s || contains ys s)
contains-append [] ys s = refl
contains-append (x ∷ xs) ys s = ground (arith, contains-append xs ys s)

pub contains-filter :
    (p : String → Bool) (xs : List String) (s : String)
    → contains (filter p xs) s ≡ (contains xs s && p s)
contains-filter p [] s = refl
contains-filter p (x ∷ xs) s = elim (Bool-cases (x == s)) [
  | inl e ↦ ground (arith, contains-filter p xs s, (eq_iff x s).0 e)
  | inr e ↦ ground (arith, contains-filter p xs s)
]

pub subset→Subset : (xs ys : List String) → subset xs ys ≡ true → Subset xs ys
subset→Subset [] ys h s m = cc
subset→Subset (x ∷ xs) ys h s m = ground (arith, eq_iff x s, subset→Subset xs ys (ground arith) s)

pub Subset→subset : (xs ys : List String) → Subset xs ys → subset xs ys ≡ true
Subset→subset [] ys h = refl
Subset→subset (x ∷ xs) ys h =
    ground (arith, h x, (eq_iff x x).1 refl, Subset→subset xs ys (λ s m. h s (ground arith)))

pub diff-empty : (xs ys : List String) → is_empty (diff xs ys) ≡ true → Subset xs ys
diff-empty [] ys h s m = cc
diff-empty (x ∷ xs) ys h s m = ground (arith, eq_iff x s, diff-empty xs ys (ground arith) s)

-- The common part of two sets, where the first has only names of a third that are in a fourth.
pub inter-subset :
    (xs ys zs : List String)
    → ((s : String) → contains xs s ≡ true → contains ys s ≡ true → contains zs s ≡ true)
    → subset (inter xs ys) zs ≡ true
inter-subset xs ys zs h =
    Subset→subset (inter xs ys) zs
      λ s m. let (l, r) = &&-eq-true _ _ (rw (contains-filter (contains ys) xs s) at m) in h s l r

-- `xs.add(s)`
abbrev pub insert : String → List String → List String
insert s xs = if contains xs s then xs else s ∷ xs

-- `xs.update(ys)`
abbrev pub insert_all : List String → List String → List String
insert_all [] xs = xs
insert_all (y ∷ ys) xs = insert_all ys (insert y xs)

pub contains-insert :
    (s : String) (xs : List String) (n : String)
    → contains (insert s xs) n ≡ (s == n || contains xs n)
contains-insert s xs n = ground (arith, eq_iff s n)

pub contains-insert_all :
    (ys xs : List String) (n : String)
    → contains (insert_all ys xs) n ≡ (contains ys n || contains xs n)
contains-insert_all [] xs n = refl
contains-insert_all (y ∷ ys) xs n =
    ground (arith, contains-insert_all ys (insert y xs) n, contains-insert y xs n)
