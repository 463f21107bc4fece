-- ===== src/Pipeline/Runner.antt =====
-- The decisions of ragent/pipeline/runner.py. An exception is its class and its text; the texts
-- that are put together from them stay data (`DeathReason`).
pub mod Handoff
pub mod Failures
pub mod Resume
use ragent.Common.{
  ℕ, suc, ◌+◌, String, Bool, true, false, not, Option, none, some, List, [], ◌∷◌, ◌++◌, map, str_eq,
  if◌then◌else◌, contains, filter, diff,
}
use ragent.Ingest.Formats.{FormatFamily}
use ragent.Pipeline.Stages
use ragent.Pipeline.Stages.{
  Stage, Result, ok, err, ◌>>=◌, names, stage_by_name, ready_stages, is_complete, retry_delay_ms,
  terminal_stage,
}
use ragent.Pipeline.Messages.{StageMessage, for_stage}
use ragent.Pipeline.Topology.{retry_exchange_name}

-- What a handler raises: the three permanent classes, or another class by its name.
pub data Failure : Type 0 where
  permanent_error unsupported_format malformed_message : String → Failure
  other_error : (class text : String) → Failure

-- `isinstance(exc, _PERMANENT)`
unfoldable pub is_permanent : Failure → Bool
is_permanent (other_error class text) = false
is_permanent _ = true

pub data DeathReason : Type 0 where
  unknown_stage : String → DeathReason
  permanent : Failure → DeathReason
  exhausted : ℕ → Failure → DeathReason
  no_handler : String → DeathReason

pub data Action : Type 0 where
  retry : (delay_ms : ℕ) (exchange : String) (attempt : ℕ) → Action
  dead_letter : DeathReason → Action

module _ (pipeline : List Stage) where
  -- `retry_delay_ms` raises a ValueError for an attempt below 1, which passes through.
  unfoldable pub plan_failure : StageMessage → Failure → Result Action
  unfolding is_permanent
  plan_failure message exc = elim (stage_by_name pipeline message.stage) [
    | none ↦ ok (dead_letter (unknown_stage message.stage))
    | some stage ↦ if is_permanent exc then ok (dead_letter (permanent exc)) else do
      delay ← retry_delay_ms stage message.attempt
      ok (elim delay [
        | none ↦ dead_letter (exhausted stage.max_attempts exc)
        | some ms ↦ retry ms (retry_exchange_name ms) (message.attempt + 1)
      ])
  ]

  unfoldable pub next_messages : StageMessage → List String → List String → List StageMessage
  next_messages message completed dispatched =
      map (λ (s : Stage). for_stage s.name message)
        (ready_stages pipeline message.family completed dispatched)

  unfoldable pub document_ready : FormatFamily → List String → Bool
  document_ready family completed = is_complete pipeline family completed

  -- `tuple(STAGES_BY_NAME[name] for name in …)`, with `none` for the KeyError.
  unfoldable pub stages_by_names : List String → Option (List Stage)
  stages_by_names [] = some []
  stages_by_names (n ∷ rest) =
      let after = stages_by_names rest in
      elim (stage_by_name pipeline n) [
        | none ↦ none
        | some s ↦ elim after [ none ↦ none | some more ↦ some (s ∷ more) ]
      ]

  -- `sorted` orders the names that are in flight; the order is that of the parameter `sort`.
  unfoldable pub resume_plan :
      (List String → List String) → FormatFamily → List String → List String → Option (List Stage)
  unfolding stages_by_names
  resume_plan sort family completed dispatched =
      elim (stages_by_names (sort (diff dispatched completed))) [
        | none ↦ none
        | some restarted ↦ some (restarted ++ ready_stages pipeline family completed dispatched)
      ]

unfoldable pub terminal_stage_name : String
terminal_stage_name = terminal_stage
