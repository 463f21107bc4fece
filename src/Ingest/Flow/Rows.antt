-- ===== src/Ingest/Flow/Rows.antt =====
-- The row groups of `split_csv`.
use ragent.Common.{
  ℕ, ◌+◌, ◌≤◌, ◌≡◌, ◌∙◌, ap, refl, inl, inr, List, [], ◌∷◌, ◌++◌, arith, leb, if◌then◌else◌, length,
  is_empty, Bool-cases, Each, length-append,
}
use ragent.Ingest.Text.{Text, strip}
use ragent.Ingest.Flow.{group_rows}

-- The numbers of the lines that hold text, counted from `idx`.
abbrev pub rows_from : ℕ → List (Text × ℕ) → List ℕ
rows_from idx [] = []
rows_from idx ((line, size) ∷ rest) =
    if is_empty (strip line) then rows_from (idx + 1) rest else idx ∷ rows_from (idx + 1) rest

abbrev pub flat : List (List ℕ) → List ℕ
flat [] = []
flat (g ∷ rest) = g ++ flat rest

abbrev pub IsGroup : ℕ → List ℕ → Type 0
IsGroup rows g = (1 ≤ length g) × (length g ≤ rows)

append_assoc : (xs ys zs : List ℕ) → (xs ++ ys) ++ zs ≡ xs ++ (ys ++ zs)
append_assoc [] ys zs = refl
append_assoc (x ∷ xs) ys zs = ap (λ l. x ∷ l) (append_assoc xs ys zs)

-- The groups of `split_csv` hold every line with text of the body once and in order, and each holds
-- at least one and at most `rows_per_block` lines, whatever was collected before is shorter than
-- that.
pub group_rows_lem :
    (rows idx : ℕ) (lines : List (Text × ℕ)) (group : List ℕ)
    → length group + 1 ≤ rows
    → (flat (group_rows rows idx lines group) ≡ group ++ rows_from idx lines)
      × Each (IsGroup rows) (group_rows rows idx lines group)
unfolding group_rows
group_rows_lem rows idx [] [] h = (refl, tt)
group_rows_lem rows idx [] (i ∷ group) h = (refl, ((omega arith, omega arith), tt))
group_rows_lem rows idx ((line, size) ∷ rest) group h = elim (Bool-cases (is_empty (strip line))) [
  | inl blank ↦ rw blank (group_rows_lem rows (idx + 1) rest group h)
  | inr text ↦
      let longer = length-append group (idx ∷ []) in
      elim (Bool-cases (leb rows (length group + 1))) [
        | inl full ↦
            let (all, each) = group_rows_lem rows (idx + 1) rest [] (omega arith) in
            rw (text, full)
              (
                ap (λ l. (group ++ idx ∷ []) ++ l) all
                    ∙ append_assoc group (idx ∷ []) (rows_from (idx + 1) rest),
                ((omega (arith, longer), omega (arith, longer)), each),
              )
        | inr room ↦
            let (all, each) =
              group_rows_lem rows (idx + 1) rest (group ++ idx ∷ []) (ground (arith, longer)) in
            rw (text, room) (all ∙ append_assoc group (idx ∷ []) (rows_from (idx + 1) rest), each)
      ]
]
