-- ===== src/Pipeline/Store/Laws.antt =====
-- What each operation of the store does to the two sets of every run.
use ragent.Common.{
  ℕ, String, ◌≡◌, refl, Bool, true, false, ◌&&◌, ◌||◌, List, [], arith, str_eq, eq_iff, contains,
  contains-insert, contains-insert_all, insert, insert_all,
}
use ragent.Common.Dict.{get_or, get_or-put}
use ragent.Pipeline.Store.{
  StageStore, dispatch, mark_dispatched, begin_stage, complete_stage, fail_stage, snapshot,
}

module _ {ℓ} {Error : Type ℓ} where
  -- Whether a stage of a run has succeeded.
  abbrev pub is_completed : StageStore Error → String → String → Bool
  is_completed s run_id stage = contains (get_or s.completed run_id []) stage

  -- Whether a stage of a run has been queued, whatever came of it.
  abbrev pub is_dispatched : StageStore Error → String → String → Bool
  is_dispatched s run_id stage = contains (get_or s.dispatched run_id []) stage

  pub is_dispatched-dispatch :
      (s : StageStore Error) (run_id stage r n : String)
      → is_dispatched (dispatch run_id stage s) r n
        ≡ (str_eq run_id r && str_eq stage n || is_dispatched s r n)
  unfolding dispatch
  is_dispatched-dispatch s run_id stage r n = ground (
    arith,
    get_or-put s.dispatched run_id r (insert stage (get_or s.dispatched run_id [])) [],
    contains-insert stage (get_or s.dispatched run_id []) n,
    eq_iff run_id r,
  )

  pub is_dispatched-mark_dispatched :
      (s : StageStore Error) (run_id : String) (stages : List String) (r n : String)
      → is_dispatched (mark_dispatched run_id stages s) r n
        ≡ (str_eq run_id r && contains stages n || is_dispatched s r n)
  unfolding mark_dispatched
  is_dispatched-mark_dispatched s run_id stages r n = ground (
    arith,
    get_or-put s.dispatched run_id r (insert_all stages (get_or s.dispatched run_id [])) [],
    contains-insert_all stages (get_or s.dispatched run_id []) n,
    eq_iff run_id r,
  )

  pub is_dispatched-begin_stage :
      (s : StageStore Error) (run_id stage : String) (attempt : ℕ) (r n : String)
      → is_dispatched (begin_stage run_id stage attempt s) r n
        ≡ (str_eq run_id r && str_eq stage n || is_dispatched s r n)
  unfolding begin_stage
  is_dispatched-begin_stage s run_id stage attempt r n = is_dispatched-dispatch s run_id stage r n

  pub is_dispatched-fail_stage :
      (s : StageStore Error) (run_id stage : String) (error : Error) (permanent : Bool)
      (r n : String)
      → is_dispatched (fail_stage run_id stage error permanent s) r n
        ≡ (permanent && (str_eq run_id r && str_eq stage n) || is_dispatched s r n)
  unfolding fail_stage
  is_dispatched-fail_stage s run_id stage error true r n = is_dispatched-dispatch s run_id stage r n
  is_dispatched-fail_stage s run_id stage error false r n = refl

  -- Completing a stage marks exactly that stage of that run as succeeded and as dispatched. The
  -- snapshot that it returns is that of the store which it leaves.
  pub complete_stage_lem :
      (s : StageStore Error) (run_id stage r n : String)
      → (is_completed (complete_stage run_id stage s).1 r n
          ≡ (str_eq run_id r && str_eq stage n || is_completed s r n))
        × (is_dispatched (complete_stage run_id stage s).1 r n
            ≡ (str_eq run_id r && str_eq stage n || is_dispatched s r n))
        × ((complete_stage run_id stage s).0 ≡ snapshot run_id (complete_stage run_id stage s).1)
  unfolding complete_stage
  complete_stage_lem s run_id stage r n = (
    ground (
      arith,
      get_or-put s.completed run_id r (insert stage (get_or s.completed run_id [])) [],
      contains-insert stage (get_or s.completed run_id []) n,
      eq_iff run_id r,
    ),
    is_dispatched-dispatch s run_id stage r n,
    refl,
  )

  pub completed-mark_dispatched :
      (s : StageStore Error) (run_id : String) (stages : List String)
      → (mark_dispatched run_id stages s).completed ≡ s.completed
  unfolding mark_dispatched
  completed-mark_dispatched s run_id stages = refl

  pub completed-begin_stage :
      (s : StageStore Error) (run_id stage : String) (attempt : ℕ)
      → (begin_stage run_id stage attempt s).completed ≡ s.completed
  unfolding begin_stage
  completed-begin_stage s run_id stage attempt = refl

  pub completed-fail_stage :
      (s : StageStore Error) (run_id stage : String) (error : Error) (permanent : Bool)
      → (fail_stage run_id stage error permanent s).completed ≡ s.completed
  unfolding fail_stage
  completed-fail_stage s run_id stage error true = refl
  completed-fail_stage s run_id stage error false = refl

  -- What has succeeded has been dispatched.
  pub record IsConsistent (s : StageStore Error) : Type ℓ where
    pub at : (r n : String) → is_completed s r n ≡ true → is_dispatched s r n ≡ true

  -- Every operation of the store keeps what has succeeded among what has been dispatched.
  pub store_operations-IsConsistent :
      (s : StageStore Error) (run_id stage : String) (stages : List String) (attempt : ℕ)
      (error : Error) (permanent : Bool)
      → IsConsistent s
      → IsConsistent (mark_dispatched run_id stages s)
        × IsConsistent (begin_stage run_id stage attempt s)
        × IsConsistent (complete_stage run_id stage s).1
        × IsConsistent (fail_stage run_id stage error permanent s)
  store_operations-IsConsistent s run_id stage stages attempt error permanent h = (
    record {
      at = λ r n.
          rw completed-mark_dispatched
            (λ m. ground (arith, is_dispatched-mark_dispatched s run_id stages r n, h.at r n));
    },
    record {
      at = λ r n.
          rw completed-begin_stage
            (λ m. ground (arith, is_dispatched-begin_stage s run_id stage attempt r n, h.at r n));
    },
    record { at = λ r n m. ground (arith, complete_stage_lem s run_id stage r n, h.at r n) },
    record {
      at = λ r n. rw completed-fail_stage (λ m.
          ground (arith, is_dispatched-fail_stage s run_id stage error permanent r n, h.at r n));
    },
  )
