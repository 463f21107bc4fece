-- ===== src/Db/Blocks/Ids.antt =====
-- The ids that blocks are stored under.
use ragent.Common.{
  ℕ, ◌+◌, ◌<◌, String, ◌≡◌, refl, ◌∙◌, true, false, not, List, [], ◌∷◌, map, arith, str_eq, eq_refl,
  ◌==◌, all, contains, distinct,
}
use ragent.Common.Dict
use ragent.Common.Dict.{Dict, get_or-put}
use ragent.Ingest.Types.{SourceBlock}
use ragent.Db.Blocks.{assign_ids}

abbrev pub source_ids : List SourceBlock → List String
source_ids = map (λ (b : SourceBlock). b.id)

module _ (fresh : ℕ → String) where
  abbrev pub ids_from : ℕ → List SourceBlock → List String
  ids_from n [] = []
  ids_from n (b ∷ rest) = fresh n ∷ ids_from (n + 1) rest

  get_or-assign_ids :
      (n : ℕ) (blocks : List SourceBlock) (assigned : Dict String) (key : String)
      → contains (source_ids blocks) key ≡ false
      → Dict.get_or (assign_ids fresh n blocks assigned) key "" ≡ Dict.get_or assigned key ""
  unfolding assign_ids
  get_or-assign_ids n [] assigned key absent = refl
  get_or-assign_ids n (b ∷ rest) assigned key absent =
      get_or-assign_ids (n + 1) rest (Dict.put assigned b.id (fresh n)) key (ground (arith))
      ∙ ground (arith, get_or-put assigned b.id key (fresh n) "")

  pub assigned_ids_lem :
      (n : ℕ) (blocks : List SourceBlock) (assigned : Dict String)
      → distinct (source_ids blocks) ≡ true
      → map (λ (b : SourceBlock). Dict.get_or (assign_ids fresh n blocks assigned) b.id "") blocks
        ≡ ids_from n blocks
  unfolding assign_ids
  assigned_ids_lem n [] assigned h = refl
  assigned_ids_lem n (b ∷ rest) assigned h =
      let first : Dict.get_or (assign_ids fresh (n + 1) rest (Dict.put assigned b.id (fresh n)))
            b.id ""
          ≡ fresh n =
        get_or-assign_ids (n + 1) rest (Dict.put assigned b.id (fresh n)) b.id (ground (arith))
        ∙ get_or-put assigned b.id b.id (fresh n) ""
        ∙ rw (eq_refl b.id) refl in
      rw (first, assigned_ids_lem (n + 1) rest (Dict.put assigned b.id (fresh n)) (ground (arith)))
        refl

  module _ (once : (m n : ℕ) → str_eq (fresh m) (fresh n) ≡ (m == n)) where
    contains-ids_from :
        (m n : ℕ) (blocks : List SourceBlock)
        → n < m
        → contains (ids_from m blocks) (fresh n) ≡ false
    contains-ids_from m n [] lt = refl
    contains-ids_from m n (b ∷ rest) lt =
        ground (arith, once m n, contains-ids_from (m + 1) n rest (omega arith))

    pub distinct-ids_from :
        (n : ℕ) (blocks : List SourceBlock) → distinct (ids_from n blocks) ≡ true
    distinct-ids_from n [] = refl
    distinct-ids_from n (b ∷ rest) =
        rw (contains-ids_from (n + 1) n rest (omega arith)) (distinct-ids_from (n + 1) rest)

  pub absent-ids_from :
      (taken : List String) (n : ℕ) (blocks : List SourceBlock)
      → ((k : ℕ) → contains taken (fresh k) ≡ false)
      → all (λ id. not (contains taken id)) (ids_from n blocks) ≡ true
  absent-ids_from taken n [] new = refl
  absent-ids_from taken n (b ∷ rest) new = rw (new n) (absent-ids_from taken (n + 1) rest new)
