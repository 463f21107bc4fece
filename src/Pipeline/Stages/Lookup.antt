-- ===== src/Pipeline/Stages/Lookup.antt =====
-- Stages by name, in a pipeline whose stages have distinct names.
use mathlib.Core.List.{Memᴰ}
use ragent.Common.{
  String, ◌≡◌, refl, sym, ap, subst, inl, inr, Bool, true, false, none, some, List, [], ◌∷◌, arith,
  str_eq, eq_iff, filter, contains, distinct, Bool-cases, Option-cases,
}
use ragent.Pipeline.Stages.{Stage, names, stage_by_name}

stage_by_name-none :
    (l : List Stage) (n : String) → contains (names l) n ≡ false → stage_by_name l n ≡ none
unfolding stage_by_name
stage_by_name-none [] n h = refl
stage_by_name-none (s ∷ l) n h = ground (arith, stage_by_name-none l n)

pub contains_of_mem : (l : List Stage) {s : Stage} → Memᴰ s l → contains (names l) s.name ≡ true
contains_of_mem [] m = elim m [ ]
contains_of_mem (x ∷ l) {s} (Memᴰ.head e) = ground (arith, eq_iff x.name s.name)
contains_of_mem (x ∷ l) (Memᴰ.tail m) = ground (arith, contains_of_mem l m)

-- A stage is found under its own name.
pub stage_by_name_of_mem :
    (l : List Stage) (s : Stage)
    → distinct (names l) ≡ true
    → Memᴰ s l
    → stage_by_name l s.name ≡ some s
unfolding stage_by_name
stage_by_name_of_mem [] s h m = elim m [ ]
stage_by_name_of_mem (x ∷ l) s h (Memᴰ.head e) =
    ground (arith, eq_iff x.name s.name, stage_by_name-none l x.name, ap (λ (t : Stage). t.name) e)
stage_by_name_of_mem (x ∷ l) s h (Memᴰ.tail m) =
    ground (arith, stage_by_name_of_mem l s (ground arith) m)

-- What is found under a name is a stage of the pipeline with that name.
pub mem_of_stage_by_name :
    (l : List Stage) (n : String) (s : Stage) → stage_by_name l n ≡ some s → Memᴰ s l × (s.name ≡ n)
unfolding stage_by_name
mem_of_stage_by_name [] n s h = cc
mem_of_stage_by_name (x ∷ l) n s h = elim (Option-cases (stage_by_name l n)) [
  | inl e ↦
      let same : (x ≡ s) × (x.name ≡ n) = ground (arith, eq_iff x.name n) in
      (Memᴰ.head (sym same.0), ground (arith))
  | inr (t, e) ↦
      let (m, named) = mem_of_stage_by_name l n t e in
      let same : t ≡ s = ground arith in (Memᴰ.tail (subst (λ u. Memᴰ u l) same m), ground arith)
]

pub contains-names-filter :
    (p : Stage → Bool) (l : List Stage) (n : String)
    → contains (names l) n ≡ false
    → contains (names (filter p l)) n ≡ false
contains-names-filter p [] n h = refl
contains-names-filter p (s ∷ l) n h = ground (arith, contains-names-filter p l n)

pub distinct-names-filter :
    (p : Stage → Bool) (l : List Stage)
    → distinct (names l) ≡ true
    → distinct (names (filter p l)) ≡ true
distinct-names-filter p [] h = refl
distinct-names-filter p (s ∷ l) h =
    ground (arith, distinct-names-filter p l, contains-names-filter p l s.name)

pub stage_by_name_of_contains :
    (l : List Stage) (n : String)
    → contains (names l) n ≡ true
    → (s : Stage) × (stage_by_name l n ≡ some s) × (s.name ≡ n)
unfolding stage_by_name
stage_by_name_of_contains [] n h = cc
stage_by_name_of_contains (x ∷ l) n h = elim (Option-cases (stage_by_name l n)) [
  | inl e ↦ elim (Bool-cases (contains (names l) n)) [
    | inl later ↦ let (s, found, _) = stage_by_name_of_contains l n later in cc
    | inr gone ↦
        let here : str_eq x.name n ≡ true = ground arith in
        (x, rw (e, here), (eq_iff x.name n).0 here)
  ]
  | inr (t, e) ↦ (t, rw e, (mem_of_stage_by_name l n t e).1)
]

pub mem_of_contains :
    (l : List Stage) (n : String)
    → contains (names l) n ≡ true
    → (s : Stage) × Memᴰ s l × (s.name ≡ n)
mem_of_contains [] n h = cc
mem_of_contains (x ∷ l) n h = elim (Bool-cases (str_eq x.name n)) [
  | inl e ↦ (x, Memᴰ.head refl, (eq_iff x.name n).0 e)
  | inr e ↦ let (s, m, named) = mem_of_contains l n (rw e at h) in (s, Memᴰ.tail m, named)
]
