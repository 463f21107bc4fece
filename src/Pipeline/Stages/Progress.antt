-- ===== src/Pipeline/Stages/Progress.antt =====
-- No document of a validated pipeline gets stuck: while some stage of its family is unfinished, one
-- is ready.
use ragent.Common.{
  String, ◌≡◌, refl, inl, inr, Bool, true, false, ◌&&◌, not, List, [], ◌∷◌, ◌++◌, arith, eq_iff,
  filter, is_empty, Each, contains, subset, Subset, distinct, diff, inter, subst, diff-empty,
  inter-subset, Bool-cases, contains-append,
}
use ragent.Ingest.Formats.{FormatFamily}
use ragent.Pipeline.Stages.Lookup.{contains-names-filter}
use ragent.Pipeline.Stages.{
  Stage, names, ok, applies_to, stages_for, stage_names_for, effective_deps, is_ready, ready_stages,
  is_complete, validate_pipeline, check_order,
}

check_order-cons :
    (seen : List String) (s : Stage) (rest : List Stage)
    → check_order seen (s ∷ rest) ≡ ok tt
    → (is_empty (diff s.depends_on seen) ≡ true) × (check_order (s.name ∷ seen) rest ≡ ok tt)
unfolding check_order
check_order-cons seen s rest h = ground arith

module _ (family : FormatFamily) where
  abbrev path : List Stage → List String
  path l = names (filter (applies_to family) l)

  -- A stage that the family does not run shares its name with no stage that it runs.
  abbrev Apart : List String → Stage → Type 0
  Apart ns s = applies_to family s ≡ false → contains ns s.name ≡ false

  Apart-cons :
      (s : Stage) (ns : List String) (l : List Stage)
      → contains (names l) s.name ≡ false
      → Each (Apart ns) l
      → Each (Apart (s.name ∷ ns)) l
  Apart-cons s ns [] h a = tt
  Apart-cons s ns (t ∷ l) h a = (
    λ idle. ground (arith, a.0 idle, eq_iff s.name t.name, eq_iff t.name s.name),
    Apart-cons s ns l (ground arith) a.1,
  )

  path_runs :
      (s : Stage) (l : List Stage) → applies_to family s ≡ true → s.name ∷ path l ≡ path (s ∷ l)
  path_runs s l runs = rw runs

  path_skips : (s : Stage) (l : List Stage) → applies_to family s ≡ false → path l ≡ path (s ∷ l)
  path_skips s l skips = rw skips

  Apart-path : (l : List Stage) → distinct (names l) ≡ true → Each (Apart (path l)) l
  Apart-path [] h = tt
  Apart-path (s ∷ l) h = elim (Bool-cases (applies_to family s)) [
    | inl runs ↦
        subst (λ ns. Each (Apart ns) (s ∷ l)) (path_runs s l runs)
          (λ idle. cc, Apart-cons s (path l) l (ground arith) (Apart-path l (ground arith)))
    | inr skips ↦
        subst (λ ns. Each (Apart ns) (s ∷ l)) (path_skips s l skips)
          (
            λ idle. contains-names-filter (applies_to family) l s.name (ground arith),
            Apart-path l (ground arith),
          )
  ]

  module _ (ns completed blocked : List String) (settled : Subset blocked completed) where
    -- The part of `is_ready` that does not depend on the pipeline: `ns` is the family's path.
    abbrev waits : Stage → Bool
    waits s = not (contains blocked s.name) && subset (inter s.depends_on ns) completed

    abbrev Done : List String → Type 0
    Done seen =
        (n : String) → contains seen n ≡ true → contains ns n ≡ true → contains completed n ≡ true

    Done-cons :
        (s : Stage) (seen : List String)
        → Done seen
        → (contains ns s.name ≡ true → contains completed s.name ≡ true)
        → Done (s.name ∷ seen)
    Done-cons s seen h fresh n m = ground (arith, eq_iff s.name n, h n)

    blocked_of_not_ready :
        (s : Stage) (seen : List String)
        → is_empty (diff s.depends_on seen) ≡ true
        → Done seen
        → waits s ≡ false
        → contains completed s.name ≡ true
    blocked_of_not_ready s seen known h idle = settled s.name (
        ground (
          arith,
          inter-subset s.depends_on ns completed
              (λ n m. h n (diff-empty s.depends_on seen known n m)),
        ))

    progress_from :
        (seen : List String) (rest : List Stage)
        → check_order seen rest ≡ ok tt
        → Done seen
        → Each (Apart ns) rest
        → is_empty (filter waits (filter (applies_to family) rest)) ≡ true
        → subset (path rest) completed ≡ true
    progress_from seen [] order h apart none_ready = refl
    progress_from seen (s ∷ rest) order h apart none_ready =
        let (known, order') = check_order-cons seen s rest order in
        elim (Bool-cases (applies_to family s)) [
          | inr skips ↦ rw skips (
              progress_from (s.name ∷ seen) rest order'
                (Done-cons s seen h (λ m. cc (apart.0 skips))) apart.1 (ground arith))
          | inl runs ↦
              let idle : waits s ≡ false = ground arith in
              let done = blocked_of_not_ready s seen known h idle in
              rw (runs, done)
                (progress_from (s.name ∷ seen) rest order' (Done-cons s seen h (λ _. done)) apart.1
                  (ground arith))
        ]

pub order_of_valid :
    (pipeline : List Stage) → validate_pipeline pipeline ≡ ok tt → check_order [] pipeline ≡ ok tt
unfolding validate_pipeline
order_of_valid pipeline h = ground arith

-- In a pipeline whose stages have distinct names and pass the order check, a document that has
-- nothing in flight and no stage ready has finished every stage of its family.
pub is_complete_of_no_ready :
    (pipeline : List Stage) (family : FormatFamily) (completed dispatched : List String)
    → check_order [] pipeline ≡ ok tt
    → distinct (names pipeline) ≡ true
    → Subset dispatched completed
    → is_empty (ready_stages pipeline family completed dispatched) ≡ true
    → is_complete pipeline family completed ≡ true
unfolding is_complete ready_stages is_ready effective_deps stage_names_for stages_for
is_complete_of_no_ready pipeline family completed dispatched order apart settled none_ready =
    progress_from family (path family pipeline) completed (completed ++ dispatched)
      (λ n m. ground (arith, contains-append completed dispatched n, settled n)) [] pipeline order
      (λ n m. cc) (Apart-path family pipeline apart) none_ready

-- A validated pipeline whose stages have distinct names never deadlocks, for any family and from
-- any set of finished stages: if nothing is in flight and the document is not complete, then the
-- scheduler finds a ready stage.
pub no_deadlock :
    (pipeline : List Stage) (family : FormatFamily) (completed dispatched : List String)
    → validate_pipeline pipeline ≡ ok tt
    → distinct (names pipeline) ≡ true
    → Subset dispatched completed
    → is_complete pipeline family completed ≡ false
    → is_empty (ready_stages pipeline family completed dispatched) ≡ false
no_deadlock pipeline family completed dispatched valid apart settled unfinished = ground (
  arith,
  is_complete_of_no_ready pipeline family completed dispatched (order_of_valid pipeline valid) apart
      settled,
)
