-- ===== src/Pipeline/Store.antt =====
-- Where a run's progress lives between stages: `StageSnapshot` and `InMemoryStageStore` of
-- ragent/pipeline/store.py. Each method is one atomic step.
pub mod Laws
use ragent.Common.{
  ℕ, String, Bool, true, false, List, [], ◌∷◌, if◌then◌else◌, insert, insert_all, diff,
}
use ragent.Common.Dict.{Dict, get_or, put}

pub record StageSnapshot : Type 0 where
  pub completed : List String
  pub dispatched : List String

unfoldable pub in_flight : StageSnapshot → List String
in_flight s = diff s.dispatched s.completed

pub record StageStore {ℓ} (Error : Type ℓ) : Type ℓ where
  pub completed : Dict (List String)
  pub dispatched : Dict (List String)
  pub errors : Dict (Dict Error)
  pub attempts : Dict (Dict ℕ)

module _ {ℓ} {Error : Type ℓ} where
  -- `self._dispatched.setdefault(run_id, set()).add(stage)`
  unfoldable pub dispatch : String → String → StageStore Error → StageStore Error
  dispatch run_id stage s = record s {
    dispatched = put s.dispatched run_id (insert stage (get_or s.dispatched run_id []));
  }

  unfoldable pub mark_dispatched : String → List String → StageStore Error → StageStore Error
  mark_dispatched run_id stages s = record s {
    dispatched = put s.dispatched run_id (insert_all stages (get_or s.dispatched run_id []));
  }

  unfoldable pub begin_stage : String → String → ℕ → StageStore Error → StageStore Error
  unfolding dispatch
  begin_stage run_id stage attempt s = record (dispatch run_id stage s) {
    attempts = put s.attempts run_id (put (get_or s.attempts run_id []) stage attempt);
  }

  unfoldable pub snapshot : String → StageStore Error → StageSnapshot
  snapshot run_id s = record {
    completed = get_or s.completed run_id [];
    dispatched = get_or s.dispatched run_id [];
  }

  unfoldable pub complete_stage :
      String → String → StageStore Error → StageSnapshot × StageStore Error
  unfolding dispatch snapshot
  complete_stage run_id stage s =
      let s' = record (dispatch run_id stage s) {
        completed = put s.completed run_id (insert stage (get_or s.completed run_id []));
      } in
      (snapshot run_id s', s')

  unfoldable pub fail_stage : String → String → Error → Bool → StageStore Error → StageStore Error
  unfolding dispatch
  fail_stage run_id stage error permanent s =
      let s' = record s {
        errors = put s.errors run_id (put (get_or s.errors run_id []) stage error);
      } in
      if permanent then dispatch run_id stage s' else s'

  unfoldable pub errors_of : String → StageStore Error → Dict Error
  errors_of run_id s = get_or s.errors run_id []
