-- ===== src/Retrieval/Fusion.antt =====
-- `reciprocal_rank_fusion` of ragent/retrieval/fusion.py. The arithmetic of scores, which is Python's
-- floating point, and the order of texts are parameters. `k` is a natural number here, so that only
-- 0 is refused, and a `limit` is not negative.
pub mod Ranks
pub mod Order
pub mod Sources
use ragent.Common.{
  ℕ, zero, suc, ◌+◌, String, Bool, true, false, ◌&&◌, ◌||◌, not, Option, none, some, List, [], ◌∷◌,
  map, ltb, ◌==◌, if◌then◌else◌, length, contains,
}
use ragent.Common.Dict
use ragent.Common.Dict.{Dict}

-- What the fusion uses of `float`: 0.0, 1.0, `+`, `weight / (k + position)`, `==` and `<`; and `<`
-- of texts.
pub record Numbers : Type 1 where
  pub Float : Type 0
  pub zero_score : Float
  pub one_weight : Float
  pub add : Float → Float → Float
  pub over : Float → ℕ → Float
  pub same : Float → Float → Bool
  pub less : Float → Float → Bool
  pub text_less : String → String → Bool

module _ (num : Numbers) where
  pub record FusedHit : Type 0 where
    pub doc_id : String
    pub score : num.Float
    pub ranks : Dict ℕ
    pub contributions : Dict num.Float

  unfoldable pub retriever_count : FusedHit → ℕ
  retriever_count hit = length hit.ranks

  -- `hits.get(doc_id)`, or a new hit.
  unfoldable pub hit_of : Dict FusedHit → String → FusedHit
  hit_of hits doc_id =
      Dict.get_or hits doc_id
        (record { doc_id = doc_id; score = num.zero_score; ranks = []; contributions = [] })

  -- The body of the inner loop for an id that is not seen yet.
  unfoldable pub add_contribution :
      ℕ → String → num.Float → ℕ → String → Dict FusedHit → Dict FusedHit
  add_contribution k retriever weight position doc_id hits =
      let contribution = num.over weight (k + position) in
      let hit = hit_of hits doc_id in
      Dict.put hits doc_id (record {
        doc_id = hit.doc_id;
        score = num.add hit.score contribution;
        ranks = Dict.put hit.ranks retriever position;
        contributions = Dict.put hit.contributions retriever contribution;
      })

  -- The inner loop.
  unfoldable pub add_ranking :
      ℕ → String → num.Float → ℕ → List String → List String → Dict FusedHit → Dict FusedHit
  add_ranking k retriever weight position seen [] hits = hits
  add_ranking k retriever weight position seen (doc_id ∷ rest) hits =
      let again = add_ranking k retriever weight (position + 1) seen rest hits in
      let hits' = add_contribution k retriever weight position doc_id hits in
      let fresh = add_ranking k retriever weight (position + 1) (doc_id ∷ seen) rest hits' in
      if contains seen doc_id then again else fresh

  -- The outer loop.
  unfoldable pub add_rankings :
      ℕ → Dict num.Float → Dict (List String) → Dict FusedHit → Dict FusedHit
  add_rankings k weights [] hits = hits
  add_rankings k weights ((retriever, doc_ids) ∷ rest) hits =
      let weight = Dict.get_or weights retriever num.one_weight in
      let skipped = add_rankings k weights rest hits in
      let added = add_rankings k weights rest (add_ranking k retriever weight 1 [] doc_ids hits) in
      if num.same weight num.zero_score then skipped else added

  -- The order of the key `(-score, -retriever_count, doc_id)`.
  unfoldable pub ranks_before : FusedHit → FusedHit → Bool
  ranks_before a b =
      if not (num.same a.score b.score)
      then num.less b.score a.score
      else if not (retriever_count a == retriever_count b)
      then ltb (retriever_count b) (retriever_count a)
      else num.text_less a.doc_id b.doc_id

  -- `sorted`, which is stable.
  unfoldable pub insert_hit : FusedHit → List FusedHit → List FusedHit
  insert_hit h [] = h ∷ []
  insert_hit h (x ∷ rest) = if ranks_before x h then x ∷ insert_hit h rest else h ∷ x ∷ rest

  unfoldable pub sort_hits : List FusedHit → List FusedHit
  unfolding insert_hit
  sort_hits [] = []
  sort_hits (h ∷ rest) = insert_hit h (sort_hits rest)

  -- `ordered[:limit]`
  abbrev pub take_hits : ℕ → List FusedHit → List FusedHit
  take_hits zero hits = []
  take_hits (suc n) [] = []
  take_hits (suc n) (h ∷ rest) = h ∷ take_hits n rest

  -- `none` is the ValueError.
  unfoldable pub reciprocal_rank_fusion :
      Dict (List String) → ℕ → Dict num.Float → Option ℕ → Option (List FusedHit)
  reciprocal_rank_fusion rankings k weights limit =
      let hits = add_rankings k weights rankings [] in
      let ordered = sort_hits (map (λ (entry : String × FusedHit). entry.1) hits) in
      if k == 0
      then none
      else elim limit [ none ↦ some ordered | some n ↦ some (take_hits n ordered) ]
