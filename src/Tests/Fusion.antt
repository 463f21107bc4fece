-- ===== src/Tests/Fusion.antt =====
-- Two retrievers. Scores are numbers that round down, and texts are not ordered.
use ragent.Common.{
  ℕ, ◌+◌, ◌/◌, ◌≡◌, refl, arith, String, false, Option, none, some, List, [], ◌∷◌, map, ltb, ◌==◌,
}
use ragent.Common.Dict
use ragent.Retrieval.Fusion.{
  Numbers, FusedHit, hit_of, add_contribution, add_ranking, add_rankings, retriever_count,
  ranks_before, insert_hit, sort_hits, reciprocal_rank_fusion,
}
use ragent.Retrieval.Fusion.Order.{Comparisons, IsOrdered, reciprocal_rank_fusion-IsOrdered}
use ragent.Retrieval.Fusion.Ranks.{rank_in, counted, rank_in-add_rankings}

abbrev pub numbers : Numbers
numbers = record {
  Float = ℕ;
  zero_score = 0;
  one_weight = 1000;
  add = ◌+◌;
  over = ◌/◌;
  same = ◌==◌;
  less = ltb;
  text_less = λ s t. false;
}

abbrev rankings : List (String × List String)
rankings = ("dense", "a" ∷ "b" ∷ []) ∷ ("lexical", "c" ∷ "c" ∷ "b" ∷ []) ∷ []

rank_in-add_rankings_example :
    rank_in numbers (add_rankings numbers 60 [] rankings []) "b" "lexical"
    ≡ counted numbers [] "b" "lexical" none (Dict.get? rankings "lexical")
rank_in-add_rankings_example = rank_in-add_rankings numbers 60 [] rankings "b" "lexical" refl

abbrev found : Option (List (FusedHit numbers)) → List String
found none = []
found (some hits) = map (λ (hit : FusedHit numbers). hit.doc_id) hits

both_retrievers_win :
    found (reciprocal_rank_fusion numbers rankings 60 [] (some 2)) ≡ "b" ∷ "a" ∷ []
unfolding reciprocal_rank_fusion add_rankings add_ranking add_contribution hit_of sort_hits
    insert_hit ranks_before retriever_count Dict.get_or Dict.put
both_retrievers_win = refl

numbers-Comparisons : Comparisons numbers
numbers-Comparisons = record {
  same_sym = λ x y. ground arith;
  same-less = λ x y h. ground arith;
  less_asym = λ x y h. ground arith;
  text_less_asym = λ s t h. refl;
}

reciprocal_rank_fusion-IsOrdered_example :
    (reciprocal_rank_fusion numbers rankings 0 [] (some 2) ≡ none)
    × ((hits : List (FusedHit numbers)) × (reciprocal_rank_fusion numbers rankings 60 [] (some 2)
          ≡ some hits)
        × IsOrdered numbers hits)
reciprocal_rank_fusion-IsOrdered_example =
    reciprocal_rank_fusion-IsOrdered numbers numbers-Comparisons rankings 59 [] (some 2)
