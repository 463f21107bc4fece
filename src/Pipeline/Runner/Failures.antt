-- ===== src/Pipeline/Runner/Failures.antt =====
-- What becomes of a failed stage.
use ragent.Common.{ℕ, ◌+◌, ◌≤◌, ◌<◌, ◌≡◌, ◌⊎◌, inl, inr, true, false, none, some, List, arith}
use ragent.Pipeline.Stages.{Stage, stage_by_name, ok, retry_delay_ms}
use ragent.Pipeline.Stages.Retry.{retry_delay_ms_cases}
use ragent.Pipeline.Messages.{StageMessage}
use ragent.Pipeline.Topology.{retry_exchange_name}
use ragent.Pipeline.Runner.{
  Failure, is_permanent, retry, dead_letter, unknown_stage, permanent, exhausted, plan_failure,
}

module _ (pipeline : List Stage) (message : StageMessage) (exc : Failure) where
  -- A failure whose stage is unknown, or that is permanent by its class, is dead-lettered whatever
  -- the attempt.
  pub plan_failure_permanent :
      ((stage_by_name pipeline message.stage ≡ none)
        → plan_failure pipeline message exc ≡ ok (dead_letter (unknown_stage message.stage)))
      × ((stage : Stage)
          → stage_by_name pipeline message.stage ≡ some stage
          → is_permanent exc ≡ true
          → plan_failure pipeline message exc ≡ ok (dead_letter (permanent exc)))
  unfolding plan_failure
  plan_failure_permanent = (λ e. rw (e, plan_failure), λ stage e p. rw (e, p, plan_failure))

  -- Any other failure of a known stage is retried exactly while attempts are left: before the
  -- stage's last attempt the message goes to the exchange of its delay with the next attempt
  -- number, and at the last attempt or past it the message is dead-lettered as exhausted.
  pub plan_failure_transient :
      (stage : Stage)
      → stage_by_name pipeline message.stage ≡ some stage
      → is_permanent exc ≡ false
      → 1 ≤ message.attempt
      → (message.attempt < stage.max_attempts)
          × ((ms : ℕ) × (retry_delay_ms stage message.attempt ≡ ok (some ms))
              × (plan_failure pipeline message exc
                  ≡ ok (retry ms (retry_exchange_name ms) (message.attempt + 1))))
        ⊎ (stage.max_attempts ≤ message.attempt)
          × (plan_failure pipeline message exc
              ≡ ok (dead_letter (exhausted stage.max_attempts exc)))
  unfolding plan_failure
  plan_failure_transient stage e p counted = elim (retry_delay_ms_cases stage message.attempt) [
    | inl h ↦ absurd (omega arith)
    | inr (inl h) ↦ inr (h.1, rw (e, p, h.2, plan_failure))
    | inr (inr (inl h)) ↦ inl (h.1, (_, h.2, rw (e, p, h.2, plan_failure)))
    | inr (inr (inr (inl h))) ↦ inl (h.1, (_, h.2, rw (e, p, h.2, plan_failure)))
    | inr (inr (inr (inr h))) ↦ inl (h.1, (_, h.2, rw (e, p, h.2, plan_failure)))
  ]
