-- ===== src/Tests/Fresh.antt =====
-- Ids that are new and differ from each other, as those of `uuid4` do.
use ragent.Common.{
  ℕ, zero, suc, ◌+◌, String, ◌≡◌, refl, sym, ap, subst, inl, inr, true, false, [], ◌∷◌, arith,
  str_eq, eq_iff, eq_refl, ◌==◌, Bool-cases, length, contains,
}
use ragent.Ingest.Text.{Text, codes}

abbrev pub fresh : ℕ → String
fresh zero = "-"
fresh (suc n) = String.◌∷◌ "x" (fresh n)

length-fresh : (n : ℕ) → length (codes (fresh n)) ≡ n + 1
length-fresh zero = refl
length-fresh (suc n) = omega (arith, length-fresh n)

pub fresh_once : (m n : ℕ) → str_eq (fresh m) (fresh n) ≡ (m == n)
fresh_once m n = elim (Bool-cases (m == n)) [
  | inl same ↦
      let e : m ≡ n = ground (arith) in
      rw same (subst (λ k. str_eq (fresh k) (fresh n) ≡ true) (sym e) (eq_refl (fresh n)))
  | inr other ↦ elim (Bool-cases (str_eq (fresh m) (fresh n))) [
    | inr differ ↦ rw (other, differ) refl
    | inl same ↦
        let e = ap (λ s. length (codes s)) ((eq_iff (fresh m) (fresh n)).0 same) in
        let sizes : m ≡ n = omega (arith, e, length-fresh m, length-fresh n) in ground (arith)
  ]
]

abbrev first_code : Text → ℕ
first_code [] = 0
first_code (c ∷ t) = c

-- No fresh id starts with a "c".
pub old : (n : ℕ) → contains ("c0" ∷ []) (fresh n) ≡ false
old n = elim (Bool-cases (str_eq "c0" (fresh n))) [
  | inr differ ↦ rw differ refl
  | inl same ↦ absurd (starts n (ap (λ s. first_code (codes s)) ((eq_iff "c0" (fresh n)).0 same)))
]
  where
    starts : (k : ℕ) → 99 ≡ first_code (codes (fresh k)) → ⊥
    starts zero e = omega (arith, e)
    starts (suc k) e = omega (arith, e)
