-- ===== src/Pipeline/StorePg/Steps.antt =====
-- One call on both stores.
use ragent.Common.{
  ℕ, String, ◌≡◌, refl, sym, Bool, true, false, ◌&&◌, not, Option, none, some, List, [], ◌∷◌,
  if◌then◌else◌, str_eq, arith, eq_iff, subst, Bool-cases, inl, inr,
}
use ragent.Common.Dict
use ragent.Ingest.Text.{Text, take}
use ragent.Pipeline.Json.{Fields}
use ragent.Pipeline.Store
use ragent.Pipeline.Store.{StageStore}
use ragent.Pipeline.Store.Laws.{
  is_completed, is_dispatched, is_dispatched-begin_stage, is_dispatched-fail_stage,
  complete_stage_lem, completed-begin_stage, completed-fail_stage,
}
use ragent.Pipeline.StorePg.{
  running, succeeded, failed, pending, Row, Database, upsert, new_row, insert_pending, for_run,
  mark_dispatched, begin_stage, complete_stage, fail_stage, fail_document, or_empty,
}
use ragent.Pipeline.StorePg.Refinement.{Agrees, Agrees-upsert, Agrees-mark}

-- A call of the store's protocol.
pub data Call : Type 0 where
  mark : (run_id : String) → List String → Call
  begin : (run_id stage : String) → ℕ → Call
  complete : (run_id stage : String) → Option Fields → Call
  fail : (run_id stage : String) → Text → Bool → Call

abbrev pub run_of : Call → String
run_of (mark run_id stages) = run_id
run_of (begin run_id stage attempt) = run_id
run_of (complete run_id stage metrics) = run_id
run_of (fail run_id stage error permanent) = run_id

unfoldable pub in_memory : Call → StageStore Text → StageStore Text
in_memory (mark run_id stages) s = Store.mark_dispatched run_id stages s
in_memory (begin run_id stage attempt) s = Store.begin_stage run_id stage attempt s
in_memory (complete run_id stage metrics) s = (Store.complete_stage run_id stage s).1
in_memory (fail run_id stage error permanent) s = Store.fail_stage run_id stage error permanent s

-- The database that a call leaves.
abbrev pub left : Option (Store.StageSnapshot × Database) → Option Database
left none = none
left (some (seen, db)) = some db

unfoldable pub in_postgres : Call → Database → Option Database
in_postgres (mark run_id stages) db = mark_dispatched run_id stages db
in_postgres (begin run_id stage attempt) db = begin_stage run_id stage attempt db
in_postgres (complete run_id stage metrics) db = left (complete_stage run_id stage metrics db)
in_postgres (fail run_id stage error permanent) db = fail_stage run_id stage error permanent db

-- A stage is begun or failed only while it has not succeeded, and failed only once it was queued.
abbrev pub in_order : StageStore Text → Call → Bool
in_order s (mark run_id stages) = true
in_order s (begin run_id stage attempt) = not (is_completed s run_id stage)
in_order s (complete run_id stage metrics) = true
in_order s (fail run_id stage error permanent) =
    is_dispatched s run_id stage && not (is_completed s run_id stage)

-- The outcome of a call on both sides.
abbrev pub Simulates : StageStore Text → Dict.Dict String → Option Database → Type 0
Simulates s runs outcome =
    (db : Database) × (outcome ≡ some db) × Agrees s db.stages × (db.runs ≡ runs)

pub for_run-some :
    (run_id document : String) (change : List Row → List Row) (db : Database)
    → Dict.get? db.runs run_id ≡ some document
    → for_run run_id change db ≡ some (record db { stages = change db.stages })
unfolding for_run
for_run-some run_id document change db h = rw (h, for_run) refl

stages-fail_document :
    (run_id : String) (db : Database) → (fail_document run_id db).stages ≡ db.stages
unfolding fail_document
stages-fail_document run_id db = go (Dict.get? db.runs run_id)
  where
    go :
        (o : Option String)
        → (elim o as (λ _. Database) [
          | none ↦ db
          | some document ↦ record db { documents = Dict.put db.documents document "failed" }
        ]).stages
          ≡ db.stages
    go none = refl
    go (some document) = refl

runs-fail_document : (run_id : String) (db : Database) → (fail_document run_id db).runs ≡ db.runs
unfolding fail_document
runs-fail_document run_id db = go (Dict.get? db.runs run_id)
  where
    go :
        (o : Option String)
        → (elim o as (λ _. Database) [
          | none ↦ db
          | some document ↦ record db { documents = Dict.put db.documents document "failed" }
        ]).runs
          ≡ db.runs
    go none = refl
    go (some document) = refl

-- A stage that has not succeeded may be written as such.
not_completed :
    (s : StageStore Text) (run_id stage r n : String)
    → is_completed s run_id stage ≡ false
    → is_completed s r n ≡ (if str_eq run_id r && str_eq stage n then false else is_completed s r n)
not_completed s run_id stage r n h = elim (Bool-cases (str_eq run_id r && str_eq stage n)) [
  | inl here ↦
      let run : run_id ≡ r = (eq_iff run_id r).0 (ground (arith)) in
      let name : stage ≡ n = (eq_iff stage n).0 (ground (arith)) in
      rw here (
        subst (λ x. is_completed s r x ≡ false) name
          (subst (λ x. is_completed s x stage ≡ false) run h))
  | inr there ↦ rw there refl
]

module _ (s : StageStore Text) (db : Database) (run_id stage document : String)
    (agrees : Agrees s db.stages) (known : Dict.get? db.runs run_id ≡ some document) where
  step_begin :
      (attempt : ℕ)
      → is_completed s run_id stage ≡ false
      → Simulates
          (Store.begin_stage run_id stage attempt s)
          db.runs
          (begin_stage run_id stage attempt db)
  unfolding begin_stage
  step_begin attempt fresh =
      let new = record (new_row run_id stage running) { attempt = attempt } in
      let change = λ (row : Row). record row { status = running; attempt = attempt } in
      let s' = Store.begin_stage run_id stage attempt s in
      (
        record db { stages = upsert new change db.stages },
        for_run-some run_id document (upsert new change) db known,
        Agrees-upsert s s' db.stages new change running agrees (λ row. (refl, refl)) refl
            (λ row. refl) refl
            (λ r n. rw completed-begin_stage (not_completed s run_id stage r n fresh))
            (λ r n. is_dispatched-begin_stage s run_id stage attempt r n),
        refl,
      )

  step_complete :
      (metrics : Option Fields)
      → Simulates
          (Store.complete_stage run_id stage s).1
          db.runs
          (left (complete_stage run_id stage metrics db))
  unfolding complete_stage
  step_complete metrics =
      let new = record (new_row run_id stage succeeded) { metrics = or_empty metrics } in
      let change = λ (row : Row). record row {
        status = succeeded;
        error = none;
        metrics = or_empty metrics;
      } in
      let s' = (Store.complete_stage run_id stage s).1 in
      (
        record db { stages = upsert new change db.stages },
        rw (for_run-some run_id document (upsert new change) db known, complete_stage, left) refl,
        Agrees-upsert s s' db.stages new change succeeded agrees (λ row. (refl, refl)) refl
            (λ row. refl) refl (λ r n. ground (arith, complete_stage_lem s run_id stage r n))
            (λ r n. (complete_stage_lem s run_id stage r n).1),
        refl,
      )

  step_fail :
      (error : Text) (permanent : Bool)
      → is_completed s run_id stage ≡ false
      → is_dispatched s run_id stage ≡ true
      → Simulates
          (Store.fail_stage run_id stage error permanent s)
          db.runs
          (fail_stage run_id stage error permanent db)
  unfolding fail_stage
  step_fail error true fresh queued =
      let new = record (new_row run_id stage failed) { error = some (take 4000 error) } in
      let change = λ (row : Row). record row { status = failed; error = some (take 4000 error) } in
      let db' = record db { stages = upsert new change db.stages } in
      let s' = Store.fail_stage run_id stage error true s in
      let agrees' =
        Agrees-upsert s s' db.stages new change failed agrees (λ row. (refl, refl)) refl
          (λ row. refl) refl
          (λ r n. rw completed-fail_stage (not_completed s run_id stage r n fresh))
          (λ r n. ground (arith, is_dispatched-fail_stage s run_id stage error true r n)) in
      (
        fail_document run_id db',
        rw (for_run-some run_id document (upsert new change) db known, fail_stage) refl,
        subst (Agrees s') (sym (stages-fail_document run_id db')) agrees',
        runs-fail_document run_id db',
      )
  step_fail error false fresh queued =
      let new = record (new_row run_id stage pending) { error = some (take 4000 error) } in
      let change = λ (row : Row). record row { status = pending; error = some (take 4000 error) } in
      let s' = Store.fail_stage run_id stage error false s in
      (
        record db { stages = upsert new change db.stages },
        rw (for_run-some run_id document (upsert new change) db known, fail_stage) refl,
        Agrees-upsert s s' db.stages new change pending agrees (λ row. (refl, refl)) refl
            (λ row. refl) refl
            (λ r n. rw completed-fail_stage (not_completed s run_id stage r n fresh))
            (λ r n. ground (
              arith,
              is_dispatched-fail_stage s run_id stage error false r n,
              eq_iff run_id r,
              eq_iff stage n,
              queued,
            )),
        refl,
      )

pub step :
    (c : Call) (s : StageStore Text) (db : Database) (document : String)
    → Agrees s db.stages
    → Dict.get? db.runs (run_of c) ≡ some document
    → in_order s c ≡ true
    → Simulates (in_memory c s) db.runs (in_postgres c db)
unfolding in_memory in_postgres mark_dispatched insert_pending
step (mark run_id []) s db document agrees known ordered =
    (db, refl, Agrees-mark s db.stages run_id [] agrees, refl)
step (mark run_id (stage ∷ stages)) s db document agrees known ordered = (
  record db { stages = insert_pending run_id (stage ∷ stages) db.stages },
  for_run-some run_id document (insert_pending run_id (stage ∷ stages)) db known,
  Agrees-mark s db.stages run_id (stage ∷ stages) agrees,
  refl,
)
step (begin run_id stage attempt) s db document agrees known ordered =
    step_begin s db run_id stage document agrees known attempt (ground (arith))
step (complete run_id stage metrics) s db document agrees known ordered =
    step_complete s db run_id stage document agrees known metrics
step (fail run_id stage error permanent) s db document agrees known ordered =
    step_fail s db run_id stage document agrees known error permanent (ground (arith))
      (ground (arith))
