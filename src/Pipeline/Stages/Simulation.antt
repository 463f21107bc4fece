-- ===== src/Pipeline/Stages/Simulation.antt =====
-- The simulation at the end of `validate_pipeline`: it ends within its fuel, and what it checks
-- follows from the order check.
use ragent.Common.{
  ℕ, zero, suc, ◌+◌, ◌≤◌, ◌<◌, String, ◌≡◌, inl, inr, Bool, true, false, not, some, List, [], ◌∷◌,
  ◌++◌, arith, eq_refl, filter, is_empty, length, contains, Subset, distinct, Bool-cases,
  contains-append, length-filter-le,
}
use ragent.Ingest.Formats.{FormatFamily}
use ragent.Pipeline.Stages.{
  Stage, names, ok, applies_to, stages_for, is_ready, ready_stages, is_complete, simulate,
  check_order,
}
use ragent.Pipeline.Stages.Progress.{is_complete_of_no_ready}

-- How many stages of a path are unfinished.
remaining : List String → List Stage → ℕ
remaining completed l = length (filter (λ (s : Stage). not (contains completed s.name)) l)

remaining-append_le :
    (completed more : List String) (l : List Stage)
    → remaining (completed ++ more) l ≤ remaining completed l
unfolding remaining
remaining-append_le completed more [] = omega arith
remaining-append_le completed more (s ∷ l) =
    ground (arith, contains-append completed more s.name, remaining-append_le completed more l)

module _ (completed more : List String) (p : Stage → Bool)
    (fresh : (s : Stage) → p s ≡ true → contains completed s.name ≡ false) where
  remaining-append_lt :
      (l : List Stage)
      → Subset (names (filter p l)) more
      → is_empty (filter p l) ≡ false
      → remaining (completed ++ more) l < remaining completed l
  unfolding remaining
  remaining-append_lt [] sub some_ready = cc
  remaining-append_lt (s ∷ l) sub some_ready = elim (Bool-cases (p s)) [
    | inl picked ↦
        let new = sub s.name (rw (picked, eq_refl)) in
        ground (
          arith,
          contains-append completed more s.name,
          fresh s picked,
          new,
          remaining-append_le completed more l,
        )
    | inr skipped ↦
        ground
          (arith, contains-append completed more s.name, remaining-append_lt l (rw skipped at sub))
  ]

module _ (pipeline : List Stage) (family : FormatFamily) where
  round_shrinks :
      (completed : List String)
      → is_empty (ready_stages pipeline family completed []) ≡ false
      → remaining
          (completed ++ names (ready_stages pipeline family completed []))
          (stages_for pipeline family)
        < remaining completed (stages_for pipeline family)
  unfolding ready_stages is_ready
  round_shrinks completed some_ready =
      remaining-append_lt completed (names (ready_stages pipeline family completed []))
        (is_ready pipeline family completed (completed ++ []))
        (λ s picked. ground (arith, contains-append completed [] s.name))
        (stages_for pipeline family) (λ n m. m) some_ready

  simulate_from :
      (fuel : ℕ) (completed : List String)
      → remaining completed (stages_for pipeline family) < fuel
      → (r : List String) × (simulate pipeline fuel family completed ≡ some r)
        × (is_empty (ready_stages pipeline family r []) ≡ true)
  unfolding simulate
  simulate_from zero completed h = absurd (omega arith)
  simulate_from (suc fuel) completed h =
      elim (Bool-cases (is_empty (ready_stages pipeline family completed []))) [
        | inl done ↦ (completed, rw done, done)
        | inr more ↦
            let (r, e, q) =
              simulate_from fuel (completed ++ names (ready_stages pipeline family completed []))
                (omega (arith, round_shrinks completed more)) in
            (r, rw more e, q)
      ]

  -- The fuel of `check_family` is enough, for any pipeline.
  simulate_total :
      (completed : List String)
      → (r : List String) × (simulate pipeline (length pipeline + 1) family completed ≡ some r)
        × (is_empty (ready_stages pipeline family r []) ≡ true)
  unfolding remaining stages_for
  simulate_total completed = simulate_from (length pipeline + 1) completed (
      omega (
        arith,
        length-filter-le (λ (s : Stage). not (contains completed s.name))
            (stages_for pipeline family),
        length-filter-le (applies_to family) pipeline,
      ))

-- From any set of finished stages the simulated run of a family ends within its fuel, at a set of
-- finished stages with which the document is complete, if the pipeline passes the order check and
-- its stages have distinct names.
pub simulate_completes :
    (pipeline : List Stage) (family : FormatFamily) (completed : List String)
    → check_order [] pipeline ≡ ok tt
    → distinct (names pipeline) ≡ true
    → (r : List String) × (simulate pipeline (length pipeline + 1) family completed ≡ some r)
      × (is_complete pipeline family r ≡ true)
simulate_completes pipeline family completed order apart =
    let (r, e, q) = simulate_total pipeline family completed in
    (r, e, is_complete_of_no_ready pipeline family r [] order apart (λ n m. cc) q)
