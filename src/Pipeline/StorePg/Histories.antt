-- ===== src/Pipeline/StorePg/Histories.antt =====
-- Whole histories of calls on the two stores.
use ragent.Common.{
  String, ◌≡◌, refl, ◌∙◌, sym, true, Option, none, some, List, [], ◌∷◌, contains, subst,
}
use ragent.Common.Dict
use ragent.Ingest.Text.{Text}
use ragent.Pipeline.Store
use ragent.Pipeline.Store.{StageStore}
use ragent.Pipeline.StorePg.{Database, is_succeeded, is_queued, snapshot}
use ragent.Pipeline.StorePg.Table.{contains-stages_where, status_of}
use ragent.Pipeline.StorePg.Refinement.{Agrees}
use ragent.Pipeline.StorePg.Steps.{Call, run_of, in_memory, in_postgres, in_order, Simulates, step}

unfoldable pub all_in_memory : List Call → StageStore Text → StageStore Text
all_in_memory [] s = s
all_in_memory (c ∷ calls) s = all_in_memory calls (in_memory c s)

unfoldable pub all_in_postgres : List Call → Database → Option Database
all_in_postgres [] db = some db
all_in_postgres (c ∷ calls) db = elim (in_postgres c db) [
  | none ↦ none
  | some db' ↦ all_in_postgres calls db'
]

-- Calls in order, for runs that exist.
abbrev pub AreOrdered : Dict.Dict String → StageStore Text → List Call → Type 0
AreOrdered runs s [] = Unit
AreOrdered runs s (c ∷ calls) =
    (in_order s c ≡ true)
    × ((document : String) × (Dict.get? runs (run_of c) ≡ some document))
    × AreOrdered runs (in_memory c s) calls

histories :
    (calls : List Call) (s : StageStore Text) (db : Database)
    → Agrees s db.stages
    → AreOrdered db.runs s calls
    → Simulates (all_in_memory calls s) db.runs (all_in_postgres calls db)
unfolding all_in_memory all_in_postgres
histories [] s db agrees ordered = (db, refl, agrees, refl)
histories (c ∷ calls) s db agrees (first, (document, known), ordered) =
    let (db', e, agrees', runs) = step c s db document agrees known first in
    let (db'', e', agrees'', runs') =
      histories calls (in_memory c s) db' agrees'
        (subst (λ r. AreOrdered r (in_memory c s) calls) (sym runs) ordered) in
    (db'', rw (e, all_in_postgres) e', agrees'', runs' ∙ runs)

abbrev pub empty_store : StageStore Text
empty_store = record { completed = []; dispatched = []; errors = []; attempts = [] }

Agrees-empty : Agrees empty_store []
unfolding status_of Dict.get_or
Agrees-empty = record {
  unique = tt;
  completed = λ r n. refl;
  dispatched = λ r n. refl;
  queued = λ r n. refl;
}

-- The Postgres store refines the in-memory one. After any calls from empty tables, in which a stage
-- is begun or failed only while it has not succeeded and failed only once it is queued, and whose
-- runs exist, no statement has failed, and the snapshot of every run has the same completed stages
-- and the same dispatched ones.
pub histories-refine :
    (runs documents : Dict.Dict String) (calls : List Call)
    → AreOrdered runs empty_store calls
    → (db : Database) × (all_in_postgres calls
          (record { runs = runs; documents = documents; stages = [] })
        ≡ some db)
      × ((r n : String)
          → (contains (snapshot r db).completed n
              ≡ contains (Store.snapshot r (all_in_memory calls empty_store)).completed n)
            × (contains (snapshot r db).dispatched n
                ≡ contains (Store.snapshot r (all_in_memory calls empty_store)).dispatched n))
unfolding snapshot Store.snapshot
histories-refine runs documents calls ordered =
    let start : Database = record { runs = runs; documents = documents; stages = [] } in
    let (db, e, agrees, _) = histories calls empty_store start Agrees-empty ordered in
    (
      db,
      e,
      λ r n. (
        contains-stages_where db.stages is_succeeded r n agrees.unique ∙ sym (agrees.completed r n),
        contains-stages_where db.stages is_queued r n agrees.unique
            ∙ sym (agrees.dispatched r n ∙ agrees.queued r n),
      ),
    )
