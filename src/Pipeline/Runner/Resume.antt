-- ===== src/Pipeline/Runner/Resume.antt =====
-- The plan that resumes an interrupted run.
use ragent.Common.{
  String, ◌≡◌, refl, ◌&&◌, ◌||◌, not, some, List, [], ◌∷◌, ◌++◌, arith, contains, Subset, diff,
  contains-append, contains-filter, eq_refl,
}
use ragent.Ingest.Formats.{FormatFamily}
use ragent.Pipeline.Stages.{Stage, names, ready_stages}
use ragent.Pipeline.Stages.Lookup.{stage_by_name_of_contains}
use ragent.Pipeline.Runner.{stages_by_names, resume_plan}

stages_by_names_lem :
    (pipeline : List Stage) (ns : List String)
    → Subset ns (names pipeline)
    → (l : List Stage) × (stages_by_names pipeline ns ≡ some l) × (names l ≡ ns)
unfolding stages_by_names
stages_by_names_lem pipeline [] known = ([], refl, refl)
stages_by_names_lem pipeline (n ∷ ns) known =
    let (s, found, named) = stage_by_name_of_contains pipeline n (known n (rw eq_refl)) in
    let (l, e, q) = stages_by_names_lem pipeline ns (λ m h. known m (ground arith)) in
    (s ∷ l, rw (found, e, stages_by_names), ground arith)

names-append : (xs ys : List Stage) → names (xs ++ ys) ≡ names xs ++ names ys
names-append [] ys = refl
names-append (x ∷ xs) ys = rw (names-append xs ys)

-- A run whose dispatched stages are all known can be resumed. The plan holds exactly the stages
-- that were dispatched and have not finished, and those that are ready, whatever the sorting does
-- beyond keeping the names.
pub resume_plan_lem :
    (pipeline : List Stage) (sort : List String → List String) (family : FormatFamily)
    (completed dispatched : List String)
    → ((ns : List String) (n : String) → contains (sort ns) n ≡ contains ns n)
    → Subset dispatched (names pipeline)
    → (plan : List Stage) × (resume_plan pipeline sort family completed dispatched ≡ some plan)
      × ((n : String)
          → contains (names plan) n ≡ (
              contains dispatched n && not (contains completed n)
              || contains (names (ready_stages pipeline family completed dispatched)) n))
unfolding resume_plan
resume_plan_lem pipeline sort family completed dispatched keeps known =
    let in_flight = diff dispatched completed in
    let ready = ready_stages pipeline family completed dispatched in
    let in_flight_iff =
      λ (n : String). contains-filter (λ x. not (contains completed x)) dispatched n in
    let (l, e, q) =
      stages_by_names_lem pipeline (sort in_flight)
        (λ n m. known n (ground (arith, keeps in_flight n, in_flight_iff n))) in
    (
      l ++ ready,
      rw (e, resume_plan),
      λ n. rw (names-append l ready, contains-append, q, keeps in_flight n, in_flight_iff n),
    )
