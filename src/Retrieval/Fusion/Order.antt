-- ===== src/Retrieval/Fusion/Order.antt =====
-- The order of the fused hits.
use ragent.Common.{
  ℕ, zero, suc, ◌≤◌, ◌≡◌, refl, length, inl, inr, String, true, false, ◌==◌, Option, none, some,
  List, [], ◌∷◌, Bool-cases, arith, map,
}
use ragent.Common.Dict.{Dict}
use ragent.Retrieval.Fusion.{
  Numbers, FusedHit, ranks_before, retriever_count, insert_hit, sort_hits, take_hits, add_rankings,
  reciprocal_rank_fusion,
}

-- What the comparisons of scores and of texts satisfy where no score is NaN.
pub record Comparisons (num : Numbers) : Type 0 where
  pub same_sym : (x y : num.Float) → num.same x y ≡ num.same y x
  pub same-less : (x y : num.Float) → num.same x y ≡ true → num.less x y ≡ false
  pub less_asym : (x y : num.Float) → num.less x y ≡ true → num.less y x ≡ false
  pub text_less_asym : (s t : String) → num.text_less s t ≡ true → num.text_less t s ≡ false

module _ (num : Numbers) where
  -- `x` may stand in front of `y`: its score is not the lower one, among equal scores it was found by
  -- no fewer retrievers, and where these are as many, its id is not the later one.
  pub record Precedes (x y : FusedHit num) : Type 0 where
    pub by_score : num.less x.score y.score ≡ false
    pub by_retrievers : num.same x.score y.score ≡ true → length y.ranks ≤ length x.ranks
    pub by_id :
        num.same x.score y.score ≡ true
        → length x.ranks ≡ length y.ranks
        → num.text_less y.doc_id x.doc_id ≡ false

  -- The first of some hits need not stand before `x`.
  abbrev pub Follows : FusedHit num → List (FusedHit num) → Type 0
  Follows x [] = Unit
  Follows x (y ∷ rest) = Precedes x y

  abbrev pub IsOrdered : List (FusedHit num) → Type 0
  IsOrdered [] = Unit
  IsOrdered (x ∷ rest) = Follows x rest × IsOrdered rest

  module _ (laws : Comparisons num) where
    ranks_before_asym :
        (a b : FusedHit num) → ranks_before num a b ≡ true → ranks_before num b a ≡ false
    unfolding ranks_before
    ranks_before_asym a b h = ground (
      arith,
      laws.same_sym a.score b.score,
      laws.less_asym b.score a.score,
      laws.text_less_asym a.doc_id b.doc_id,
    )

    ranks_before-Precedes : (x y : FusedHit num) → ranks_before num y x ≡ false → Precedes x y
    unfolding ranks_before retriever_count
    ranks_before-Precedes x y h = record {
      by_score = ground (arith, laws.same_sym x.score y.score, laws.same-less x.score y.score);
      by_retrievers = λ same. ground (arith, laws.same_sym x.score y.score);
      by_id = λ same as_many. ground (arith, laws.same_sym x.score y.score);
    }

    Follows-insert_hit :
        (x h : FusedHit num) (hits : List (FusedHit num))
        → Precedes x h
        → Follows x hits
        → Follows x (insert_hit num h hits)
    unfolding insert_hit
    Follows-insert_hit x h [] before follows = before
    Follows-insert_hit x h (y ∷ rest) before follows = elim (Bool-cases (ranks_before num y h)) [
      | inl first ↦ rw first follows
      | inr behind ↦ rw behind before
    ]

    IsOrdered-insert_hit :
        (h : FusedHit num) (hits : List (FusedHit num))
        → IsOrdered hits
        → IsOrdered (insert_hit num h hits)
    unfolding insert_hit
    IsOrdered-insert_hit h [] ordered = (tt, tt)
    IsOrdered-insert_hit h (x ∷ rest) (follows, ordered) =
        elim (Bool-cases (ranks_before num x h)) [
          | inl first ↦ rw first (
            Follows-insert_hit x h rest (ranks_before-Precedes x h (ranks_before_asym x h first))
                follows,
            IsOrdered-insert_hit h rest ordered,
          )
          | inr behind ↦ rw behind (ranks_before-Precedes h x behind, (follows, ordered))
        ]

    IsOrdered-sort_hits : (hits : List (FusedHit num)) → IsOrdered (sort_hits num hits)
    unfolding sort_hits
    IsOrdered-sort_hits [] = tt
    IsOrdered-sort_hits (h ∷ rest) =
        IsOrdered-insert_hit h (sort_hits num rest) (IsOrdered-sort_hits rest)

    IsOrdered-take_hits :
        (n : ℕ) (hits : List (FusedHit num)) → IsOrdered hits → IsOrdered (take_hits num n hits)
    IsOrdered-take_hits zero hits h = tt
    IsOrdered-take_hits (suc n) [] h = tt
    IsOrdered-take_hits (suc zero) (x ∷ rest) h = (tt, tt)
    IsOrdered-take_hits (suc (suc n)) (x ∷ []) h = (tt, tt)
    IsOrdered-take_hits (suc (suc n)) (x ∷ y ∷ rest) (follows, h) =
        (follows, IsOrdered-take_hits (suc n) (y ∷ rest) h)

    -- The fusion refuses a `k` of 0 and returns hits for any other, the best first, with or without a
    -- limit: of two neighbours the first has not the lower score, at equal scores was found by no
    -- fewer retrievers, and where these are as many too, has not the later id. Scores are compared as numbers are, none of them NaN.
    pub reciprocal_rank_fusion-IsOrdered :
        (rankings : Dict (List String)) (k : ℕ) (weights : Dict num.Float) (limit : Option ℕ)
        → (reciprocal_rank_fusion num rankings 0 weights limit ≡ none)
          × ((hits : List (FusedHit num)) × (reciprocal_rank_fusion num rankings
                  (suc k)
                  weights
                  limit
                ≡ some hits)
              × IsOrdered hits)
    unfolding reciprocal_rank_fusion
    reciprocal_rank_fusion-IsOrdered rankings k weights none =
        let all =
          map (λ (entry : String × FusedHit num). entry.1)
            (add_rankings num (suc k) weights rankings []) in
        let positive : (suc k == 0) ≡ false = ground (arith) in
        (refl, (sort_hits num all, rw positive refl, IsOrdered-sort_hits all))
    reciprocal_rank_fusion-IsOrdered rankings k weights (some n) =
        let all =
          map (λ (entry : String × FusedHit num). entry.1)
            (add_rankings num (suc k) weights rankings []) in
        let positive : (suc k == 0) ≡ false = ground (arith) in
        (
          refl,
          (
            take_hits num n (sort_hits num all),
            rw positive refl,
            IsOrdered-take_hits n (sort_hits num all) (IsOrdered-sort_hits all),
          ),
        )
