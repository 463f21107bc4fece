-- ===== src/Tests/StorePg.antt =====
-- A run whose first stage succeeds, and is then delivered again.
use ragent.Common.{ℕ, String, ◌≡◌, refl, true, false, none, some, List, [], ◌∷◌, contains}
use ragent.Common.Dict
use ragent.Pipeline.Store
use ragent.Pipeline.Store.Laws.{is_completed}
use ragent.Pipeline.StorePg
use ragent.Pipeline.StorePg.{Database, snapshot, succeeded, new_row}
use ragent.Pipeline.StorePg.Table.{status_of}
use ragent.Pipeline.StorePg.Steps.{Call, mark, begin, complete, fail, in_memory}
use ragent.Pipeline.StorePg.Histories.{
  all_in_memory, all_in_postgres, empty_store, histories-refine,
}
use ragent.Pipeline.StorePg.Redelivery.{begin_stage-forgets}

abbrev runs : Dict.Dict String
runs = ("run", "document") ∷ []

abbrev calls : List Call
calls =
    begin "run" "detect" 1
    ∷ complete "run" "detect" none
    ∷ mark "run" ("parse" ∷ [])
    ∷ fail "run" "parse" (b'x' ∷ []) true
    ∷ []

histories-refine_example :
    (db : Database) × (all_in_postgres calls (record { runs = runs; documents = []; stages = [] })
      ≡ some db)
    × ((r n : String)
        → (contains (snapshot r db).completed n
            ≡ contains (Store.snapshot r (all_in_memory calls empty_store)).completed n)
          × (contains (snapshot r db).dispatched n
              ≡ contains (Store.snapshot r (all_in_memory calls empty_store)).dispatched n))
unfolding Dict.get? in_memory Store.begin_stage Store.complete_stage Store.mark_dispatched
    Dict.get_or Dict.put
histories-refine_example = histories-refine runs [] calls (
  refl,
  ("document", refl),
  (refl, ("document", refl), (refl, ("document", refl), (refl, ("document", refl), tt))),
)

abbrev done_store : Store.StageStore (List ℕ)
done_store = record empty_store { completed = ("run", "detect" ∷ []) ∷ [] }

abbrev done_database : Database
done_database = record {
  runs = runs;
  documents = [];
  stages = new_row "run" "detect" succeeded ∷ [];
}

begin_stage-forgets_example :
    (db' : Database) × (StorePg.begin_stage "run" "detect" 2 done_database ≡ some db')
    × (contains (snapshot "run" db').completed "detect" ≡ false)
    × (is_completed (Store.begin_stage "run" "detect" 2 done_store) "run" "detect" ≡ true)
unfolding Dict.get? Dict.get_or status_of
begin_stage-forgets_example =
    begin_stage-forgets done_store done_database "run" "detect" "document" 2 (refl, tt) refl refl
