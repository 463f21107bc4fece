-- ===== src/Pipeline/StorePg/Redelivery.antt =====
-- What a redelivered message does to a stage that has succeeded.
use ragent.Common.{eq_refl, ℕ, String, ◌≡◌, refl, ◌∙◌, ap, true, false, some, contains}
use ragent.Common.Dict
use ragent.Ingest.Text.{Text}
use ragent.Pipeline.Store
use ragent.Pipeline.Store.{StageStore}
use ragent.Pipeline.Store.Laws.{is_completed, completed-begin_stage}
use ragent.Pipeline.StorePg.{
  running, Row, Database, upsert, new_row, is_succeeded, begin_stage, snapshot,
}
use ragent.Pipeline.StorePg.Table.{
  status_of, Unique, contains-stages_where, status_of-upsert, Unique-upsert, holds,
}
use ragent.Pipeline.StorePg.Steps.{for_run-some}

-- A stage that has succeeded is not kept as such when it is begun again, as a redelivered message
-- does: the Postgres store's snapshot of the run no longer holds it as completed, where the
-- in-memory store's still does.
pub begin_stage-forgets :
    (s : StageStore Text) (db : Database) (run_id stage document : String) (attempt : ℕ)
    → Unique db.stages
    → Dict.get? db.runs run_id ≡ some document
    → is_completed s run_id stage ≡ true
    → (db' : Database) × (begin_stage run_id stage attempt db ≡ some db')
      × (contains (snapshot run_id db').completed stage ≡ false)
      × (is_completed (Store.begin_stage run_id stage attempt s) run_id stage ≡ true)
unfolding begin_stage snapshot
begin_stage-forgets s db run_id stage document attempt unique known done =
    let new = record (new_row run_id stage running) { attempt = attempt } in
    let change = λ (row : Row). record row { status = running; attempt = attempt } in
    let keeps : (row : Row)
        → ((change row).run_id ≡ row.run_id) × ((change row).stage ≡ row.stage) =
      λ row. (refl, refl) in
    let read =
      status_of-upsert new change running db.stages run_id stage keeps refl (λ row. refl) in
    let now : status_of (upsert new change db.stages) run_id stage ≡ some running =
      rw (eq_refl run_id, eq_refl stage) at read in
    (
      record db { stages = upsert new change db.stages },
      for_run-some run_id document (upsert new change) db known,
      contains-stages_where (upsert new change db.stages) is_succeeded run_id stage
            (Unique-upsert new change keeps db.stages unique)
          ∙ ap (holds is_succeeded) now,
      rw completed-begin_stage done,
    )
