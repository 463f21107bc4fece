-- ===== src/Agent/Answer/Citations.antt =====
-- `resolve_citations` cites exactly the supplied passages that the text marks.
use ragent.Common.{
  ℕ, zero, suc, ◌-◌, ◌≤◌, ◌<◌, ◌≡◌, refl, ◌∙◌, ap, inl, inr, false, ◌&&◌, ◌||◌, not, Option, some,
  List, [], ◌∷◌, map, arith, ltb, ◌==◌, length, get_elem?, Bool-cases, Each,
}
use ragent.Ingest.Text.{Text}
use ragent.Agent.Answer.{
  contains_nat, markers_of, insert_marker, sort_markers, keep_markers, Citation, cite,
  resolve_citations,
}

-- Strictly ascending numbers above `n`.
abbrev pub Ascending : ℕ → List ℕ → Type 0
Ascending n [] = Unit
Ascending n (m ∷ rest) = (n < m) × Ascending m rest

keep_markers_lem :
    (supplied : ℕ) (seen ms : List ℕ) (m : ℕ)
    → contains_nat (keep_markers supplied seen ms) m
      ≡ (contains_nat ms m && not (ltb m 1) && not (ltb supplied m) && not (contains_nat seen m))
unfolding keep_markers
keep_markers_lem supplied seen [] m = refl
keep_markers_lem supplied seen (x ∷ rest) m =
    ground
      (arith, keep_markers_lem supplied seen rest m, keep_markers_lem supplied (x ∷ seen) rest m)

contains-insert_marker :
    (x : ℕ) (ms : List ℕ) (m : ℕ)
    → contains_nat (insert_marker x ms) m ≡ (x == m || contains_nat ms m)
unfolding insert_marker
contains-insert_marker x [] m = refl
contains-insert_marker x (y ∷ rest) m = ground (arith, contains-insert_marker x rest m)

contains-sort_markers : (ms : List ℕ) (m : ℕ) → contains_nat (sort_markers ms) m ≡ contains_nat ms m
unfolding sort_markers
contains-sort_markers [] m = refl
contains-sort_markers (x ∷ rest) m =
    contains-insert_marker x (sort_markers rest) m
    ∙ ap (λ b. x == m || b) (contains-sort_markers rest m)

Ascending-insert_marker :
    (n x : ℕ) (ms : List ℕ)
    → n < x
    → contains_nat ms x ≡ false
    → Ascending n ms
    → Ascending n (insert_marker x ms)
unfolding insert_marker
Ascending-insert_marker n x [] lt fresh h = (lt, tt)
Ascending-insert_marker n x (y ∷ rest) lt fresh (first, h) = elim (Bool-cases (ltb y x)) [
  | inl before ↦
      rw before (first, Ascending-insert_marker y x rest (ground (arith)) (ground (arith)) h)
  | inr behind ↦ rw behind (lt, (ground (arith), h))
]

InRange : ℕ → ℕ → Type 0
InRange supplied m = (1 ≤ m) × (m ≤ supplied)

keep_markers-InRange :
    (supplied : ℕ) (seen ms : List ℕ) → Each (InRange supplied) (keep_markers supplied seen ms)
unfolding keep_markers InRange
keep_markers-InRange supplied seen [] = tt
keep_markers-InRange supplied seen (x ∷ rest) =
    elim (Bool-cases (ltb x 1 || ltb supplied x || contains_nat seen x)) [
      | inl skipped ↦ rw skipped (keep_markers-InRange supplied seen rest)
      | inr kept ↦
          rw kept ((ground (arith), ground (arith)), keep_markers-InRange supplied (x ∷ seen) rest)
    ]

Each-insert_marker :
    (Q : ℕ → Type 0) (x : ℕ) (ms : List ℕ) → Q x → Each Q ms → Each Q (insert_marker x ms)
unfolding insert_marker
Each-insert_marker Q x [] q h = (q, tt)
Each-insert_marker Q x (y ∷ rest) q (r, h) = elim (Bool-cases (ltb y x)) [
  | inl before ↦ rw before (r, Each-insert_marker Q x rest q h)
  | inr behind ↦ rw behind (q, (r, h))
]

Each-sort_markers : (Q : ℕ → Type 0) (ms : List ℕ) → Each Q ms → Each Q (sort_markers ms)
unfolding sort_markers
Each-sort_markers Q [] h = tt
Each-sort_markers Q (x ∷ rest) (q, h) =
    Each-insert_marker Q x (sort_markers rest) q (Each-sort_markers Q rest h)

-- No marker is kept twice, nor one that has been seen.
Ascending-sort_markers :
    (supplied : ℕ) (seen ms : List ℕ) → Ascending 0 (sort_markers (keep_markers supplied seen ms))
unfolding sort_markers keep_markers
Ascending-sort_markers supplied seen [] = tt
Ascending-sort_markers supplied seen (x ∷ rest) =
    elim (Bool-cases (ltb x 1 || ltb supplied x || contains_nat seen x)) [
      | inl skipped ↦ rw skipped (Ascending-sort_markers supplied seen rest)
      | inr kept ↦
          let fresh : contains_nat (sort_markers (keep_markers supplied (x ∷ seen) rest)) x
              ≡ false =
            contains-sort_markers (keep_markers supplied (x ∷ seen) rest) x
            ∙ ground (arith, keep_markers_lem supplied (x ∷ seen) rest x) in
          rw kept (
            Ascending-insert_marker 0 x (sort_markers (keep_markers supplied (x ∷ seen) rest))
              (ground (arith)) fresh (Ascending-sort_markers supplied (x ∷ seen) rest))
    ]

module _ {P : Type 0} where
  abbrev pub marks : List (Citation P) → List ℕ
  marks = map (λ (c : Citation P). c.marker)

  -- A citation that holds the passage of its number.
  abbrev pub IsOf : List P → Citation P → Type 0
  IsOf passages c = get_elem? passages (c.marker - 1) ≡ some c.passage

  get_elem?-some : (xs : List P) (i : ℕ) → i < length xs → (p : P) × (get_elem? xs i ≡ some p)
  get_elem?-some [] i h = absurd (omega arith)
  get_elem?-some (x ∷ xs) zero h = (x, refl)
  get_elem?-some (x ∷ xs) (suc i) h = get_elem?-some xs i (omega arith)

  cite_lem :
      (passages : List P) (ms : List ℕ)
      → Each (InRange (length passages)) ms
      → (marks (cite passages ms) ≡ ms) × Each (IsOf passages) (cite passages ms)
  unfolding cite InRange
  cite_lem passages [] h = (refl, tt)
  cite_lem passages (m ∷ rest) ((low, high), h) =
      let (p, e) = get_elem?-some passages (m - 1) (omega arith) in
      let (same, all) = cite_lem passages rest h in rw (e, cite) (ap (λ ms. m ∷ ms) same, (e, all))

  -- The citations of an answer are numbered in ascending order, each once, and each holds the
  -- supplied passage of its number. A number is cited exactly if the text marks it and it is the
  -- number of a supplied passage, so that no marker out of range survives.
  pub resolve_citations_lem :
      (digit : ℕ → Option ℕ) (text : Text) (passages : List P)
      → Ascending 0 (marks (resolve_citations digit text passages))
        × Each (IsOf passages) (resolve_citations digit text passages)
        × ((m : ℕ)
            → contains_nat (marks (resolve_citations digit text passages)) m ≡ (
                contains_nat (markers_of digit text) m
                && not (ltb m 1)
                && not (ltb (length passages) m)))
  unfolding resolve_citations
  resolve_citations_lem digit text passages =
      let kept = keep_markers (length passages) [] (markers_of digit text) in
      let (same, all) = cite_lem passages (sort_markers kept) (
        Each-sort_markers (InRange (length passages)) kept
          (keep_markers-InRange (length passages) [] (markers_of digit text))) in
      rw same (
        Ascending-sort_markers (length passages) [] (markers_of digit text),
        all,
        λ m.
            contains-sort_markers kept m
            ∙ keep_markers_lem (length passages) [] (markers_of digit text) m
            ∙ ground (arith),
      )
