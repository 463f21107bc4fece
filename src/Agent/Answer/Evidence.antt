-- ===== src/Agent/Answer/Evidence.antt =====
-- The answer without a model cites what it shows.
use ragent.Common.{
  ℕ, suc, ◌+◌, ◌-◌, ◌*◌, ◌/◌, ◌%◌, ◌≤◌, ◌<◌, ◌≡◌, refl, ap, ◌∙◌, subst, inl, inr, true, false,
  Option, some, List, [], ◌∷◌, ◌++◌, map, arith, ltb, ◌==◌, Bool-cases, Option-cases, length,
}
use ragent.Ingest.Text.{Text, codes}
use ragent.Retrieval.Fusion.{Numbers}
use ragent.Retrieval.Search.{Passage}
use ragent.Agent.Prompt.{
  decimal, join, newline, snippet_of, evidence, evidence_note, extractive_answer,
}
use ragent.Agent.Answer.{contains_nat, marker_at, markers_of, resolve_citations}
use ragent.Agent.Answer.Citations.{marks, resolve_citations_lem}

-- The values of the ASCII digits.
abbrev pub ReadsDigits : (ℕ → Option ℕ) → Type 0
ReadsDigits digit = (k : ℕ) → k < 10 → digit (b'0' + k) ≡ some k

module _ (digit : ℕ → Option ℕ) where
  markers_of_tail :
      (c : ℕ) (t : Text) (m : ℕ)
      → contains_nat (markers_of digit t) m ≡ true
      → contains_nat (markers_of digit (c ∷ t)) m ≡ true
  unfolding markers_of
  markers_of_tail c t m h = elim (Option-cases (marker_at digit (c ∷ t))) [
    | inl absent ↦ rw (absent, markers_of) h
    | inr (k, e) ↦ rw (e, markers_of) (ground (arith, h))
  ]

  -- What the end of a text marks, the text marks.
  markers_of-append :
      (front back : Text) (m : ℕ)
      → contains_nat (markers_of digit back) m ≡ true
      → contains_nat (markers_of digit (front ++ back)) m ≡ true
  markers_of-append [] back m h = h
  markers_of-append (c ∷ front) back m h =
      markers_of_tail c (front ++ back) m (markers_of-append front back m h)

  decimal_one : (m : ℕ) → m < 10 → decimal m ≡ (b'0' + m) ∷ []
  unfolding decimal
  decimal_one m h =
      let fuel : m + 1 ≡ suc m = omega arith in
      let small : ltb m 10 ≡ true = ground arith in rw (fuel, small) refl

  decimal_two : (m : ℕ) → 10 ≤ m → m < 100 → decimal m ≡ (b'0' + m / 10) ∷ (b'0' + m % 10) ∷ []
  unfolding decimal
  decimal_two m low high =
      let fuel : m + 1 ≡ suc (suc (m - 1)) = omega arith in
      let large : ltb m 10 ≡ false = ground arith in
      let front : ltb (m / 10) 10 ≡ true = ground arith in rw (fuel, large, front) refl

  marker_here :
      ReadsDigits digit
      → (m : ℕ) → m < 100
      → (rest more : Text)
      → contains_nat (markers_of digit (b'[' ∷ ((decimal m ++ (b']' ∷ rest)) ++ more))) m ≡ true
  unfolding markers_of marker_at
  marker_here reads m high rest more = elim (Bool-cases (ltb m 10)) [
    | inl one ↦
        let small : m < 10 = ground arith in
        rw (decimal_one m small) (rw (reads m small) (ground arith))
    | inr two ↦
        let low : 10 ≤ m = ground arith in
        let upper = reads (m / 10) (omega arith) in
        let lower = reads (m % 10) (omega arith) in
        let back : 10 * (m / 10) + m % 10 ≡ m = omega arith in
        let no_bracket : (b'0' + m % 10 == b']') ≡ false = ground arith in
        rw (decimal_two m low high) (rw (upper, no_bracket, lower, back) (ground arith))
  ]

  module _ {num : Numbers} (reads : ReadsDigits digit) where
    abbrev text_from : ℕ → List (Passage num) → Text
    text_from i passages = join newline (evidence i passages)

    own_marker :
        (i : ℕ) (p : Passage num) (rest : List (Passage num))
        → i < 100
        → contains_nat (markers_of digit (text_from i (p ∷ rest))) i ≡ true
    unfolding evidence
    own_marker i p rest small =
        markers_of_tail b'*' _ i (markers_of_tail b'*' _ i (marker_here reads i small _ _))

    later_marker :
        (i : ℕ) (p q : Passage num) (rest : List (Passage num)) (m : ℕ)
        → contains_nat (markers_of digit (text_from (i + 1) (q ∷ rest))) m ≡ true
        → contains_nat (markers_of digit (text_from i (p ∷ q ∷ rest))) m ≡ true
    unfolding evidence
    later_marker i p q rest m h =
        let after_blank = markers_of-append newline (text_from (i + 1) (q ∷ rest)) m h in
        let after_snippet = markers_of-append newline _ m after_blank in
        let after_header = markers_of-append (snippet_of p.text) _ m after_snippet in
        let behind = markers_of-append newline _ m after_header in
        markers_of-append
          (codes "**[" ++ (decimal i ++ (codes "] " ++ (codes p.document_name ++ codes "**")))) _ m
          behind

    evidence_marks :
        (i : ℕ) (passages : List (Passage num)) (m : ℕ)
        → i ≤ m
        → m < i + length passages
        → m < 100
        → contains_nat (markers_of digit (text_from i passages)) m ≡ true
    evidence_marks i [] m low high small = absurd (omega (arith, low, high))
    evidence_marks i (p ∷ rest) m low high small = elim (Bool-cases (i == m)) [
      | inl here ↦
          let e : i ≡ m = ground arith in
          subst (λ k. contains_nat (markers_of digit (text_from i (p ∷ rest))) k ≡ true) e
            (own_marker i p rest (omega (arith, e)))
      | inr other ↦
          further rest (ground arith) (omega (arith, high)) (evidence_marks (i + 1) rest m)
    ]
      where
        further :
            (more : List (Passage num))
            → i + 1 ≤ m
            → m < i + 1 + length more
            → (i + 1 ≤ m
                → m < i + 1 + length more
                → m < 100
                → contains_nat (markers_of digit (text_from (i + 1) more)) m ≡ true)
            → contains_nat (markers_of digit (text_from i (p ∷ more))) m ≡ true
        further [] above below marked = absurd (omega (arith, above, below))
        further (q ∷ more) above below marked = later_marker i p q more m (marked above below small)

length-map : {A B : Type 0} (f : A → B) (xs : List A) → length (map f xs) ≡ length xs
length-map f [] = refl
length-map f (x ∷ xs) = ap suc (length-map f xs)

-- Without a model the answer still cites all its evidence. Of at most 99 passages each one is among
-- the citations that are resolved from the extractive answer, whatever the passages' own texts
-- hold, if `int` reads the ten ASCII digits.
pub extractive_answer-cites :
    {num : Numbers} (digit : ℕ → Option ℕ) (to_dict : Passage num → Passage num)
    (passages : List (Passage num)) (m : ℕ)
    → ReadsDigits digit
    → length passages < 100
    → 1 ≤ m
    → m ≤ length passages
    → contains_nat
        (marks (resolve_citations digit (extractive_answer passages) (map to_dict passages)))
        m
      ≡ true
unfolding extractive_answer evidence
extractive_answer-cites digit to_dict [] m reads few low high = absurd (omega (arith, low, high))
extractive_answer-cites digit to_dict (p ∷ rest) m reads few low high =
    let passages = p ∷ rest in
    let dicts = map to_dict passages in
    let text = extractive_answer passages in
    let (ascending, each, cited) = resolve_citations_lem digit text dicts in
    let body =
      evidence_marks digit reads 1 passages m low (omega (arith, high))
        (omega (arith, few, high)) in
    let marked : contains_nat (markers_of digit text) m ≡ true =
      markers_of-append digit evidence_note _ m (
        markers_of-append digit newline _ m
          (markers_of-append digit newline (join newline (evidence 1 passages)) m body)) in
    cited m ∙ ground (arith, marked, length-map to_dict rest)
