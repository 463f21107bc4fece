-- ===== src/Pipeline/Stages.antt =====
-- The ingest DAG of ragent/pipeline/stages.py. The module constant PIPELINE, which the functions
-- read as a global, is their parameter `pipeline` here; its value is `pipeline_stages`.
-- A frozenset is a list of names (Common.Names), and a raised ValueError is a value of `Result`.
pub mod Lookup
pub mod Progress
pub mod Ready
pub mod Retry
pub mod Simulation
pub mod Validation
use Prim.Native.String.{◌++◌ as str_append}
use ragent.Common.{
  ℕ, zero, suc, ◌+◌, ◌-◌, min, String, Bool, true, false, ◌&&◌, not, Option, none, some, List, [],
  ◌∷◌, ◌++◌, map, str_eq, leb, ltb, if◌then◌else◌, length, get_elem?, filter, any, is_empty,
  contains, subset, inter, diff,
}
use ragent.Ingest.Formats.{FormatFamily, pdf, image, office, web, flow, all_families, family_eq}

pub data WorkerPool : Type 0 where
  parse enrich : WorkerPool

pub record Stage : Type 0 where
  pub name : String
  pub pool : WorkerPool
  pub families : List FormatFamily
  pub depends_on : List String
  pub max_attempts : ℕ
  pub prefetch : ℕ

-- The errors that these functions raise, each a ValueError with its own text.
pub data StageError : Type 0 where
  unknown_dependency no_family no_attempts declared_early : String → StageError
  no_stages never_terminal deadlocks : FormatFamily → StageError
  attempt_below_one : ℕ → StageError

pub data Result {ℓ} (A : Type ℓ) : Type ℓ where
  ok : A → Result A
  err : StageError → Result A

-- An error ends the chain.
infixl 5 ◌>>=◌ ◌>>◌
abbrev pub ◌>>=◌ {ℓ κ} : {V : Type ℓ} {W : Type κ} → Result V → (V → Result W) → Result W
◌>>=◌ step next = elim step [ ok value ↦ next value | err problem ↦ err problem ]

abbrev pub ◌>>◌ {ℓ} : {W : Type ℓ} → Result (Unit {0}) → Result W → Result W
step >> next = step >>= λ _. next

unfoldable pub queue : Stage → String
queue stage = str_append "ragent." stage.name

unfoldable pub routing_key : Stage → String
routing_key stage = str_append "ingest." stage.name

unfoldable pub dlq : Stage → String
dlq stage = str_append "ragent." (str_append stage.name ".dlq")

unfoldable pub applies_to : FormatFamily → Stage → Bool
applies_to family stage = any (family_eq family) stage.families

-- RETRY_DELAYS_MS
abbrev pub retry_delays_ms : List ℕ
retry_delays_ms = 5_000 ∷ 30_000 ∷ 300_000 ∷ []

-- PAGED
abbrev pub paged : List FormatFamily
paged = pdf ∷ image ∷ office ∷ web ∷ []

-- A stage with the default of three attempts.
abbrev stage : String → WorkerPool → List FormatFamily → List String → ℕ → Stage
stage name pool families depends_on prefetch = record {
  name = name;
  pool = pool;
  families = families;
  depends_on = depends_on;
  max_attempts = 3;
  prefetch = prefetch;
}

-- A stage that states how many attempts it has.
abbrev stage_with_attempts : String → WorkerPool → List FormatFamily → List String → ℕ → ℕ → Stage
stage_with_attempts name pool families depends_on max_attempts prefetch =
    record (stage name pool families depends_on prefetch) { max_attempts = max_attempts }

-- PIPELINE. The descriptions are left out: no code reads them.
abbrev pub pipeline_stages : List Stage
pipeline_stages =
    stage "detect" parse all_families [] 16
    ∷ stage_with_attempts "convert" parse (office ∷ web ∷ []) ("detect" ∷ []) 2 1
    ∷ stage "parse" parse paged ("detect" ∷ "convert" ∷ []) 2
    ∷ stage "parse_flow" parse (flow ∷ []) ("detect" ∷ []) 8
    ∷ stage "ocr" parse paged ("parse" ∷ []) 1
    ∷ stage "tables" parse paged ("parse" ∷ "ocr" ∷ []) 2
    ∷ stage_with_attempts "figures" enrich paged ("parse" ∷ "ocr" ∷ []) 4 4
    ∷ stage "chunk" enrich all_families ("tables" ∷ "figures" ∷ "parse_flow" ∷ []) 8
    ∷ stage_with_attempts "contextualize" enrich all_families ("chunk" ∷ []) 5 8
    ∷ stage_with_attempts "embed" enrich all_families ("contextualize" ∷ []) 5 4
    ∷ []

-- TERMINAL_STAGE
abbrev pub terminal_stage : String
terminal_stage = "embed"

abbrev pub names : List Stage → List String
names stages = map (λ (s : Stage). s.name) stages

-- STAGES_BY_NAME.get(name). A dict comprehension keeps the last stage of a name.
unfoldable pub stage_by_name : List Stage → String → Option Stage
stage_by_name [] name = none
stage_by_name (s ∷ rest) name = elim (stage_by_name rest name) [
  | some later ↦ some later
  | none ↦ if str_eq s.name name then some s else none
]

module _ (pipeline : List Stage) where
  unfoldable pub stages_for : FormatFamily → List Stage
  stages_for family = filter (applies_to family) pipeline

  unfoldable pub stage_names_for : FormatFamily → List String
  unfolding stages_for
  stage_names_for family = names (stages_for family)

  unfoldable pub effective_deps : Stage → FormatFamily → List String
  effective_deps s family = inter s.depends_on (stage_names_for family)

  -- The two tests of the loop in `ready_stages`.
  unfoldable pub is_ready : FormatFamily → List String → List String → Stage → Bool
  is_ready family completed blocked s =
      not (contains blocked s.name) && subset (effective_deps s family) completed

  unfoldable pub ready_stages : FormatFamily → List String → List String → List Stage
  ready_stages family completed dispatched =
      filter (is_ready family completed (completed ++ dispatched)) (stages_for family)

  unfoldable pub is_complete : FormatFamily → List String → Bool
  is_complete family completed = subset (stage_names_for family) completed

  -- The `while True` loop of `validate_pipeline`, with fuel. `none` means that the fuel ran out.
  unfoldable pub simulate : ℕ → FormatFamily → List String → Option (List String)
  simulate zero family completed = none
  simulate (suc fuel) family completed =
      let ready = ready_stages family completed [] in
      let rest = simulate fuel family (completed ++ names ready) in
      if is_empty ready then some completed else rest

unfoldable pub retry_delay_ms : Stage → ℕ → Result (Option ℕ)
retry_delay_ms s attempt =
    if ltb attempt 1
    then err (attempt_below_one attempt)
    else if leb s.max_attempts attempt
    then ok none
    else ok (get_elem? retry_delays_ms (min (attempt - 1) (length retry_delays_ms - 1)))

-- The body of the first loop of `validate_pipeline`.
unfoldable pub check_stage : List String → Stage → Result (Unit {0})
check_stage known s =
    if not (is_empty (diff s.depends_on known))
    then err (unknown_dependency s.name)
    else if is_empty s.families
    then err (no_family s.name)
    else if ltb s.max_attempts 1
    then err (no_attempts s.name)
    else ok tt

unfoldable pub check_stages : List String → List Stage → Result (Unit {0})
check_stages known [] = ok tt
check_stages known (s ∷ rest) = check_stage known s >> check_stages known rest

-- The second loop: the declaration order is topological.
unfoldable pub check_order : List String → List Stage → Result (Unit {0})
check_order seen [] = ok tt
check_order seen (s ∷ rest) =
    let after = check_order (s.name ∷ seen) rest in
    if is_empty (diff s.depends_on seen) then after else err (declared_early s.name)

-- The body of the third loop, with fuel for its simulation.
unfoldable pub check_family : List Stage → FormatFamily → Result (Unit {0})
check_family pipeline family =
    if is_empty (stages_for pipeline family)
    then err (no_stages family)
    else if not (contains (stage_names_for pipeline family) terminal_stage)
    then err (never_terminal family)
    else elim (simulate pipeline (length pipeline + 1) family []) [
      | none ↦ err (deadlocks family)
      | some completed ↦
          if is_complete pipeline family completed then ok tt else err (deadlocks family)
    ]

unfoldable pub check_families : List Stage → List FormatFamily → Result (Unit {0})
check_families pipeline [] = ok tt
check_families pipeline (f ∷ rest) = check_family pipeline f >> check_families pipeline rest

unfoldable pub validate_pipeline : List Stage → Result (Unit {0})
validate_pipeline pipeline = do
  check_stages (names pipeline) pipeline
  check_order [] pipeline
  check_families pipeline all_families
