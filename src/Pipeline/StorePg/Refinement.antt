-- ===== src/Pipeline/StorePg/Refinement.antt =====
-- The Postgres store shows what the in-memory store shows, as long as no stage that has succeeded is
-- begun or failed again.
use ragent.Common.{String, ◌≡◌, Bool, true, ◌&&◌, ◌||◌, Option, List, if◌then◌else◌, str_eq, arith}
use ragent.Ingest.Text.{Text}
use ragent.Pipeline.Store
use ragent.Pipeline.Store.{StageStore}
use ragent.Pipeline.Store.Laws.{
  is_completed, is_dispatched, is_dispatched-mark_dispatched, completed-mark_dispatched,
}
use ragent.Pipeline.StorePg.{Status, Row, upsert, insert_pending, is_succeeded, is_queued}
use ragent.Pipeline.StorePg.Table.{
  status_of, holds, Unique, status_of-upsert, Unique-upsert, status_of-insert_pending,
  Unique-insert_pending,
}

-- A row of any status.
abbrev pub is_there : Option Status → Bool
is_there = holds (λ status. true)

-- The rows say of each stage of each run what the two sets of the in-memory store say.
pub record Agrees (s : StageStore Text) (rows : List Row) : Type 0 where
  pub unique : Unique rows
  pub completed : (r n : String) → is_completed s r n ≡ holds is_succeeded (status_of rows r n)
  pub dispatched : (r n : String) → is_dispatched s r n ≡ is_there (status_of rows r n)
  pub queued : (r n : String) → is_there (status_of rows r n) ≡ holds is_queued (status_of rows r n)

-- One row set to a status, and the same change of the two sets.
pub Agrees-upsert :
    (s s' : StageStore Text) (rows : List Row) (new : Row) (change : Row → Row) (status : Status)
    → Agrees s rows
    → ((row : Row) → ((change row).run_id ≡ row.run_id) × ((change row).stage ≡ row.stage))
    → new.status ≡ status
    → ((row : Row) → (change row).status ≡ status)
    → is_queued status ≡ true
    → ((r n : String)
        → is_completed s' r n ≡ (
            if str_eq new.run_id r && str_eq new.stage n
            then is_succeeded status
            else is_completed s r n))
    → ((r n : String)
        → is_dispatched s' r n ≡ (str_eq new.run_id r && str_eq new.stage n || is_dispatched s r n))
    → Agrees s' (upsert new change rows)
Agrees-upsert s s' rows new change status h keeps e set live completes dispatches =
    let read = λ (r n : String). status_of-upsert new change status rows r n keeps e set in
    record {
      unique = Unique-upsert new change keeps rows h.unique;
      completed = λ r n. ground (arith, completes r n, read r n, h.completed r n);
      dispatched = λ r n. ground (arith, dispatches r n, read r n, h.dispatched r n);
      queued = λ r n. ground (arith, live, read r n, h.queued r n);
    }

pub Agrees-mark :
    (s : StageStore Text) (rows : List Row) (run_id : String) (stages : List String)
    → Agrees s rows
    → Agrees (Store.mark_dispatched run_id stages s) (insert_pending run_id stages rows)
Agrees-mark s rows run_id stages h =
    let read = λ (r n : String). status_of-insert_pending run_id stages rows r n in
    record {
      unique = Unique-insert_pending run_id stages rows h.unique;
      completed = λ r n. rw completed-mark_dispatched (ground (arith, read r n, h.completed r n));
      dispatched = λ r n.
          ground
            (arith, read r n, h.dispatched r n, is_dispatched-mark_dispatched s run_id stages r n);
      queued = λ r n. ground (arith, read r n, h.queued r n);
    }
