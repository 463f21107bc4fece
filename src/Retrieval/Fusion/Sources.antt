-- ===== src/Retrieval/Fusion/Sources.antt =====
-- The fusion invents no id.
use ragent.Common.{
  ℕ, zero, suc, ◌+◌, ◌≤◌, String, ◌≡◌, refl, inl, inr, false, some, List, [], ◌∷◌, map, arith,
  str_eq, ◌==◌, Bool-cases, length, Each, contains,
}
use ragent.Common.Dict
use ragent.Common.Dict.{Dict}
use ragent.Retrieval.Fusion.{
  Numbers, FusedHit, hit_of, add_contribution, add_ranking, add_rankings, ranks_before, insert_hit,
  sort_hits, take_hits, reciprocal_rank_fusion,
}

module _ (num : Numbers) (Known : String → Type 0) where
  abbrev IsKnown : FusedHit num → Type 0
  IsKnown hit = Known hit.doc_id

  abbrev AreKnown : Dict (FusedHit num) → Type 0
  AreKnown hits = Each (λ (e : String × FusedHit num). Known e.1.doc_id) hits

  hit_of-IsKnown :
      (hits : Dict (FusedHit num)) (d : String)
      → AreKnown hits
      → Known d
      → IsKnown (hit_of num hits d)
  unfolding hit_of Dict.get_or
  hit_of-IsKnown [] d h known = known
  hit_of-IsKnown ((k, v) ∷ rest) d (first, h) known = elim (Bool-cases (str_eq k d)) [
    | inl same ↦ rw same first
    | inr other ↦ rw other (hit_of-IsKnown rest d h known)
  ]

  put-AreKnown :
      (hits : Dict (FusedHit num)) (d : String) (hit : FusedHit num)
      → AreKnown hits
      → IsKnown hit
      → AreKnown (Dict.put hits d hit)
  unfolding Dict.put
  put-AreKnown [] d hit h known = (known, tt)
  put-AreKnown ((k, v) ∷ rest) d hit (first, h) known = elim (Bool-cases (str_eq k d)) [
    | inl same ↦ rw same (known, h)
    | inr other ↦ rw other (first, put-AreKnown rest d hit h known)
  ]

  add_ranking-AreKnown :
      (k : ℕ) (retriever : String) (weight : num.Float) (position : ℕ) (seen ids : List String)
      (hits : Dict (FusedHit num))
      → Each Known ids
      → AreKnown hits
      → AreKnown (add_ranking num k retriever weight position seen ids hits)
  unfolding add_ranking add_contribution
  add_ranking-AreKnown k retriever weight position seen [] hits known h = h
  add_ranking-AreKnown k retriever weight position seen (d ∷ rest) hits (first, known) h =
      elim (Bool-cases (contains seen d)) [
        | inl old ↦
            rw old (add_ranking-AreKnown k retriever weight (position + 1) seen rest hits known h)
        | inr new ↦ rw new (
            add_ranking-AreKnown k retriever weight (position + 1) (d ∷ seen) rest _ known
              (put-AreKnown hits d _ h (hit_of-IsKnown hits d h first)))
      ]

  add_rankings-AreKnown :
      (k : ℕ) (weights : Dict num.Float) (rankings : Dict (List String))
      (hits : Dict (FusedHit num))
      → Each (λ (e : String × List String). Each Known e.1) rankings
      → AreKnown hits
      → AreKnown (add_rankings num k weights rankings hits)
  unfolding add_rankings
  add_rankings-AreKnown k weights [] hits known h = h
  add_rankings-AreKnown k weights ((retriever, ids) ∷ rest) hits (first, known) h =
      let weight = Dict.get_or weights retriever num.one_weight in
      elim (Bool-cases (num.same weight num.zero_score)) [
        | inl off ↦ rw off (add_rankings-AreKnown k weights rest hits known h)
        | inr on ↦ rw on (
            add_rankings-AreKnown k weights rest (add_ranking num k retriever weight 1 [] ids hits)
              known (add_ranking-AreKnown k retriever weight 1 [] ids hits first h))
      ]

  values-IsKnown :
      (hits : Dict (FusedHit num))
      → AreKnown hits
      → Each IsKnown (map (λ (e : String × FusedHit num). e.1) hits)
  values-IsKnown [] h = tt
  values-IsKnown (e ∷ rest) (first, h) = (first, values-IsKnown rest h)

  insert_hit-IsKnown :
      (hit : FusedHit num) (hits : List (FusedHit num))
      → IsKnown hit
      → Each IsKnown hits
      → Each IsKnown (insert_hit num hit hits)
  unfolding insert_hit
  insert_hit-IsKnown hit [] known h = (known, tt)
  insert_hit-IsKnown hit (x ∷ rest) known (first, h) = elim (Bool-cases (ranks_before num x hit)) [
    | inl earlier ↦ rw earlier (first, insert_hit-IsKnown hit rest known h)
    | inr later ↦ rw later (known, (first, h))
  ]

  sort_hits-IsKnown :
      (hits : List (FusedHit num)) → Each IsKnown hits → Each IsKnown (sort_hits num hits)
  unfolding sort_hits
  sort_hits-IsKnown [] h = tt
  sort_hits-IsKnown (x ∷ rest) (first, h) =
      insert_hit-IsKnown x (sort_hits num rest) first (sort_hits-IsKnown rest h)

  take_hits-IsKnown :
      (n : ℕ) (hits : List (FusedHit num))
      → Each IsKnown hits
      → Each IsKnown (take_hits num n hits) × (length (take_hits num n hits) ≤ n)
  take_hits-IsKnown zero hits h = (tt, omega arith)
  take_hits-IsKnown (suc n) [] h = (tt, omega arith)
  take_hits-IsKnown (suc n) (x ∷ rest) (first, h) =
      let (known, short) = take_hits-IsKnown n rest h in ((first, known), omega arith)

  -- With a limit and a `k` that is not 0, the fusion returns at most that many hits, of known ids.
  pub reciprocal_rank_fusion-IsKnown :
      (rankings : Dict (List String)) (k : ℕ) (weights : Dict num.Float) (limit : ℕ)
      → (k == 0) ≡ false
      → Each (λ (e : String × List String). Each Known e.1) rankings
      → (hits : List (FusedHit num)) × (reciprocal_rank_fusion num rankings k weights (some limit)
          ≡ some hits)
        × Each IsKnown hits
        × (length hits ≤ limit)
  unfolding reciprocal_rank_fusion
  reciprocal_rank_fusion-IsKnown rankings k weights limit positive known =
      let hits =
        map (λ (e : String × FusedHit num). e.1) (add_rankings num k weights rankings []) in
      let (all_known, short) = take_hits-IsKnown limit (sort_hits num hits) (
        sort_hits-IsKnown hits (
          values-IsKnown (add_rankings num k weights rankings [])
            (add_rankings-AreKnown k weights rankings [] known tt))) in
      (take_hits num limit (sort_hits num hits), rw positive refl, all_known, short)
