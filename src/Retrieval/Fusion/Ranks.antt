-- ===== src/Retrieval/Fusion/Ranks.antt =====
-- The ranks that the fusion records.
use ragent.Common.{
  ℕ, ◌+◌, ◌≡◌, refl, sym, ◌∙◌, ap, inl, inr, String, Bool, true, false, ◌&&◌, not, Option, none,
  some, List, [], ◌∷◌, if◌then◌else◌, Bool-cases, contains, str_eq, eq_iff, arith, map, distinct,
}
use ragent.Common.Dict
use ragent.Common.Dict.{Dict, get?-put, get_or-put}
use ragent.Retrieval.Fusion.{Numbers, FusedHit, hit_of, add_contribution, add_ranking, add_rankings}

-- The position of the first occurrence of an id.
abbrev pub first_rank : String → List String → ℕ → Option ℕ
first_rank d [] position = none
first_rank d (x ∷ rest) position =
    if str_eq x d then some position else first_rank d rest (position + 1)

abbrev pub or_else : Option ℕ → Option ℕ → Option ℕ
or_else none other = other
or_else (some x) other = some x

seen_same :
    (seen : List String) (x d : String) {b : Bool}
    → str_eq x d ≡ true
    → contains seen x ≡ b
    → contains seen d ≡ b
seen_same seen x d same h = sym (ap (contains seen) ((eq_iff x d).0 same)) ∙ h

module _ (num : Numbers) where
  -- The rank that a retriever has given a document: `hits[d].ranks.get(r)`, `none` without a hit.
  abbrev pub rank_in : Dict (FusedHit num) → String → String → Option ℕ
  rank_in hits d r = Dict.get? (hit_of num hits d).ranks r

  hit_of-put :
      (hits : Dict (FusedHit num)) (doc_id d : String) (hit : FusedHit num)
      → hit_of num (Dict.put hits doc_id hit) d
        ≡ (if str_eq doc_id d then hit else hit_of num hits d)
  unfolding hit_of
  hit_of-put hits doc_id d hit =
      get_or-put hits doc_id d hit
        (record { doc_id = d; score = num.zero_score; ranks = []; contributions = [] })

  rank_in-add_contribution :
      (k : ℕ) (retriever : String) (weight : num.Float) (position : ℕ) (doc_id : String)
      (hits : Dict (FusedHit num)) (d r : String)
      → rank_in (add_contribution num k retriever weight position doc_id hits) d r
        ≡ (if str_eq doc_id d && str_eq retriever r then some position else rank_in hits d r)
  unfolding add_contribution
  rank_in-add_contribution k retriever weight position doc_id hits d r =
      elim (Bool-cases (str_eq doc_id d)) [
        | inl same ↦
            rw
              (
                hit_of-put hits doc_id d,
                same,
                get?-put (hit_of num hits doc_id).ranks retriever r position,
              )
              (at_key (ap (λ x. rank_in hits x r) ((eq_iff doc_id d).0 same)) (str_eq retriever r))
        | inr other ↦ rw (hit_of-put hits doc_id d, other) refl
      ]
    where
      at_key :
          rank_in hits doc_id r ≡ rank_in hits d r
          → (b : Bool)
          → (if b then some position else rank_in hits doc_id r)
            ≡ (if true && b then some position else rank_in hits d r)
      at_key e true = refl
      at_key e false = e

  rank_in-add_ranking :
      (k : ℕ) (retriever : String) (weight : num.Float) (position : ℕ) (seen ids : List String)
      (hits : Dict (FusedHit num)) (d r : String)
      → rank_in (add_ranking num k retriever weight position seen ids hits) d r ≡ (
          if str_eq retriever r && not (contains seen d)
          then or_else (first_rank d ids position) (rank_in hits d r)
          else rank_in hits d r)
  unfolding add_ranking
  rank_in-add_ranking k retriever weight position seen [] hits d r = ground (arith)
  rank_in-add_ranking k retriever weight position seen (x ∷ rest) hits d r =
      elim (Bool-cases (contains seen x)) [
        | inl old ↦
            rw (old, rank_in-add_ranking k retriever weight (position + 1) seen rest hits d r)
              (elim (Bool-cases (str_eq x d)) [
                | inl same ↦ rw (seen_same seen x d same old, same) (ground (arith))
                | inr other ↦ rw other (ground (arith))
              ])
        | inr fresh ↦
            let hits' = add_contribution num k retriever weight position x hits in
            rw
              (
                fresh,
                rank_in-add_ranking k retriever weight (position + 1) (x ∷ seen) rest hits' d r,
                rank_in-add_contribution k retriever weight position x hits d r,
              )
              (elim (Bool-cases (str_eq x d)) [
                | inl same ↦ rw (seen_same seen x d same fresh, same) (ground (arith))
                | inr other ↦ rw other (ground (arith))
              ])
      ]

  -- The rank that a retriever's list adds to the one there is.
  abbrev pub counted : Dict num.Float → String → String → Option ℕ → Option (List String) → Option ℕ
  counted weights d r base none = base
  counted weights d r base (some ids) =
      if num.same (Dict.get_or weights r num.one_weight) num.zero_score
      then base
      else or_else (first_rank d ids 1) base

  abbrev retrievers : Dict (List String) → List String
  retrievers = map (λ (entry : String × List String). entry.0)

  counted_above :
      (weights : Dict num.Float) (rankings : Dict (List String)) (d r retriever : String)
      (ids : List String) (base : Option ℕ)
      → str_eq retriever r ≡ false
      → counted weights d r base (Dict.get? rankings r)
        ≡ counted weights d r base (Dict.get? ((retriever, ids) ∷ rankings) r)
  unfolding Dict.get?
  counted_above weights rankings d r retriever ids base other = rw other refl

  counted_first :
      (weights : Dict num.Float) (rankings : Dict (List String)) (d r retriever : String)
      (ids : List String) (base : Option ℕ)
      → str_eq retriever r ≡ true
      → counted weights d r base (Dict.get? ((retriever, ids) ∷ rankings) r)
        ≡ counted weights d r base (some ids)
  unfolding Dict.get?
  counted_first weights rankings d r retriever ids base same = rw same refl

  counted-some :
      (weights : Dict num.Float) (d r : String) (ids : List String) (base : Option ℕ) {b : Bool}
      → num.same (Dict.get_or weights r num.one_weight) num.zero_score ≡ b
      → counted weights d r base (some ids)
        ≡ (if b then base else or_else (first_rank d ids 1) base)
  counted-some weights d r ids base h = rw h refl

  get?_missing :
      (rankings : Dict (List String)) (r : String)
      → contains (retrievers rankings) r ≡ false
      → Dict.get? rankings r ≡ none
  unfolding Dict.get?
  get?_missing [] r h = refl
  get?_missing ((x, ids) ∷ rest) r h = ground (arith, get?_missing rest r)

  -- What the other rankings add behind a retriever that none of them is of.
  counted_behind :
      (weights : Dict num.Float) (rankings : Dict (List String)) (d r retriever : String)
      (base : Option ℕ)
      → retriever ≡ r
      → contains (retrievers rankings) retriever ≡ false
      → counted weights d r base (Dict.get? rankings r) ≡ base
  counted_behind weights rankings d r retriever base e h =
      ap (counted weights d r base)
        (get?_missing rankings r (ap (contains (retrievers rankings)) (sym e) ∙ h))

  rank_in-add_rankings_onto :
      (k : ℕ) (weights : Dict num.Float) (rankings : Dict (List String))
      (hits : Dict (FusedHit num)) (d r : String)
      → distinct (retrievers rankings) ≡ true
      → rank_in (add_rankings num k weights rankings hits) d r
        ≡ counted weights d r (rank_in hits d r) (Dict.get? rankings r)
  unfolding add_rankings Dict.get?
  rank_in-add_rankings_onto k weights [] hits d r h = refl
  rank_in-add_rankings_onto k weights ((retriever, ids) ∷ rest) hits d r h =
      let weight = Dict.get_or weights retriever num.one_weight in
      let hits' = add_ranking num k retriever weight 1 [] ids hits in
      let skipped = rank_in-add_rankings_onto k weights rest hits d r (ground (arith)) in
      let added = rank_in-add_rankings_onto k weights rest hits' d r (ground (arith)) in
      let ranked = rank_in-add_ranking k retriever weight 1 [] ids hits d r in
      elim (Bool-cases (str_eq retriever r)) [
        | inl same ↦
            let e = (eq_iff retriever r).0 same in
            let alone : contains (retrievers rest) retriever ≡ false = ground (arith) in
            let first = counted_first weights rest d r retriever ids (rank_in hits d r) same in
            let at_r =
              ap (λ x. num.same (Dict.get_or weights x num.one_weight) num.zero_score) (sym e) in
            elim (Bool-cases (num.same weight num.zero_score)) [
              | inl weightless ↦ rw weightless (
                  skipped
                  ∙ counted_behind weights rest d r retriever (rank_in hits d r) e alone
                  ∙ sym
                      (first ∙ counted-some weights d r ids (rank_in hits d r) (at_r ∙ weightless)))
              | inr counts ↦
                  let gained : rank_in hits' d r ≡ or_else (first_rank d ids 1) (rank_in hits d r) =
                    rw same at ranked in
                  rw counts (
                    added
                    ∙ counted_behind weights rest d r retriever (rank_in hits' d r) e alone
                    ∙ gained
                    ∙ sym (first ∙ counted-some weights d r ids (rank_in hits d r) (at_r ∙ counts)))
            ]
        | inr other ↦ elim (Bool-cases (num.same weight num.zero_score)) [
          | inl weightless ↦
              rw weightless
                (skipped ∙ counted_above weights rest d r retriever ids (rank_in hits d r) other)
          | inr counts ↦
              let unchanged : rank_in hits' d r ≡ rank_in hits d r = rw other at ranked in
              rw counts (
                added
                ∙ ap (λ base. counted weights d r base (Dict.get? rest r)) unchanged
                ∙ counted_above weights rest d r retriever ids (rank_in hits d r) other)
        ]
      ]

  -- In the fusion of several rankings, whose retrievers have distinct names, a retriever's rank of a
  -- document is the position of its first occurrence in that retriever's list, counted from 1. It
  -- has none where the list does not hold it, where there is no such retriever, or where the
  -- retriever's weight is zero.
  pub rank_in-add_rankings :
      (k : ℕ) (weights : Dict num.Float) (rankings : Dict (List String)) (d r : String)
      → distinct (map (λ (entry : String × List String). entry.0) rankings) ≡ true
      → rank_in (add_rankings num k weights rankings []) d r
        ≡ counted weights d r none (Dict.get? rankings r)
  unfolding hit_of Dict.get? Dict.get_or
  rank_in-add_rankings k weights rankings d r h =
      rank_in-add_rankings_onto k weights rankings [] d r h
