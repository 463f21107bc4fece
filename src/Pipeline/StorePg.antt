-- ===== src/Pipeline/StorePg.antt =====
-- `PostgresStageStore` of ragent/pipeline/store_pg.py. The tables that its statements read and write
-- are lists of rows, and each statement does what its text says: an INSERT with ON CONFLICT on the
-- unique key (run_id, stage), the foreign key of run_id, a SELECT over a run. Columns of times, which
-- nothing here reads, are left out. A method is one transaction, and `none` is one that fails: a run
-- that does not exist, or an id that is no UUID.
pub mod Table
pub mod Refinement
pub mod Steps
pub mod Histories
pub mod Redelivery
use ragent.Common.{
  ℕ, String, Bool, true, false, ◌&&◌, not, Option, none, some, List, [], ◌∷◌, map, if◌then◌else◌,
  filter, str_eq,
}
use ragent.Common.Dict
use ragent.Common.Dict.{Dict}
use ragent.Ingest.Text.{Text, take}
use ragent.Pipeline.Json.{Fields, end}
use ragent.Pipeline.Store.{StageSnapshot}

-- The type `stage_status` of the schema.
pub data Status : Type 0 where
  pending running succeeded failed skipped : Status

-- A row of `ingest_stages`.
pub record Row : Type 0 where
  pub run_id : String
  pub stage : String
  pub status : Status
  pub attempt : ℕ
  pub error : Option Text
  pub metrics : Fields

-- `runs` takes a run to its document, and `documents` a document to its status.
pub record Database : Type 0 where
  pub runs : Dict String
  pub documents : Dict String
  pub stages : List Row

abbrev pub is_row : String → String → Row → Bool
is_row run_id stage row = str_eq row.run_id run_id && str_eq row.stage stage

-- INSERT … ON CONFLICT (run_id, stage) DO UPDATE
unfoldable pub upsert : Row → (Row → Row) → List Row → List Row
upsert new change [] = new ∷ []
upsert new change (row ∷ rows) =
    if is_row new.run_id new.stage row then change row ∷ rows else row ∷ upsert new change rows

-- The defaults of the columns.
abbrev pub new_row : String → String → Status → Row
new_row run_id stage status = record {
  run_id = run_id;
  stage = stage;
  status = status;
  attempt = 0;
  error = none;
  metrics = end;
}

-- A statement that inserts rows of a run.
unfoldable pub for_run : String → (List Row → List Row) → Database → Option Database
for_run run_id change db = elim (Dict.get? db.runs run_id) [
  | none ↦ none
  | some _ ↦ some (record db { stages = change db.stages })
]

-- `executemany` over the stages.
unfoldable pub insert_pending : String → List String → List Row → List Row
insert_pending run_id [] rows = rows
insert_pending run_id (stage ∷ stages) rows =
    insert_pending run_id stages (upsert (new_row run_id stage pending) (λ row. row) rows)

unfoldable pub mark_dispatched : String → List String → Database → Option Database
mark_dispatched run_id [] db = some db
mark_dispatched run_id (stage ∷ stages) db =
    for_run run_id (insert_pending run_id (stage ∷ stages)) db

unfoldable pub begin_stage : String → String → ℕ → Database → Option Database
begin_stage run_id stage attempt db =
    for_run run_id
      (upsert (record (new_row run_id stage running) { attempt = attempt })
        (λ row. record row { status = running; attempt = attempt }))
      db

abbrev pub is_succeeded : Status → Bool
is_succeeded succeeded = true
is_succeeded _ = false

-- `r["status"] in ("pending", "running", "succeeded", "failed")`
abbrev pub is_queued : Status → Bool
is_queued skipped = false
is_queued _ = true

unfoldable pub stages_where : String → (Status → Bool) → List Row → List String
stages_where run_id test rows =
    map (λ (row : Row). row.stage)
      (filter (λ (row : Row). str_eq row.run_id run_id && test row.status) rows)

unfoldable pub snapshot : String → Database → StageSnapshot
snapshot run_id db = record {
  completed = stages_where run_id is_succeeded db.stages;
  dispatched = stages_where run_id is_queued db.stages;
}

-- `metrics or {}`
abbrev pub or_empty : Option Fields → Fields
or_empty none = end
or_empty (some metrics) = metrics

unfoldable pub complete_stage :
    String → String → Option Fields → Database → Option (StageSnapshot × Database)
complete_stage run_id stage metrics db =
    let new = record (new_row run_id stage succeeded) { metrics = or_empty metrics } in
    let change =
      λ (row : Row). record row { status = succeeded; error = none; metrics = or_empty metrics } in
    elim (for_run run_id (upsert new change) db) [
      | none ↦ none
      | some db' ↦ some (snapshot run_id db', db')
    ]

-- The status of the run's document, for a permanent failure.
unfoldable pub fail_document : String → Database → Database
fail_document run_id db = elim (Dict.get? db.runs run_id) [
  | none ↦ db
  | some document ↦ record db { documents = Dict.put db.documents document "failed" }
]

unfoldable pub fail_stage : String → String → Text → Bool → Database → Option Database
fail_stage run_id stage error permanent db =
    let status = if permanent then failed else pending in
    let new = record (new_row run_id stage status) { error = some (take 4000 error) } in
    let change = λ (row : Row). record row { status = status; error = some (take 4000 error) } in
    elim (for_run run_id (upsert new change) db) [
      | none ↦ none
      | some db' ↦ some (if permanent then fail_document run_id db' else db')
    ]
