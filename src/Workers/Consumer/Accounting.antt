-- ===== src/Workers/Consumer/Accounting.antt =====
-- A delivery is acknowledged only when its message is accounted for.
use ragent.Common.{
  ℕ, ◌+◌, ◌∙◌, Bool-cases, String, ◌≡◌, ◌⊎◌, refl, inl, inr, true, false, Option, none, some, List,
  [], ◌∷◌, ◌++◌, arith, distinct, eq_iff, Option-cases,
}
use ragent.Common.Dict.{Dict}
use ragent.Pipeline.Json.{Json}
use ragent.Pipeline.Stages
use ragent.Pipeline.Stages.{Stage, names, stage_by_name, retry_delay_ms}
use ragent.Pipeline.Messages.{StageMessage, with_family, retried}
use ragent.Pipeline.Topology.{dlx_exchange, retry_exchange_name}
use ragent.Pipeline.Store.{fail_stage}
use ragent.Pipeline.Store.Laws.{is_completed}
use ragent.Pipeline.Stages.Retry.{retry_delay_ms_cases}
use ragent.Pipeline.Runner.{
  is_permanent, Failure, Action, retry, dead_letter, plan_failure, no_handler, unknown_stage,
}
use ragent.Pipeline.Runner.Failures.{plan_failure_permanent}
use ragent.Pipeline.Handlers.{get_handler}
use ragent.Workers.Consumer.{
  Publication, Headers, retry_headers, death_headers, World, acked, rejected, Handler, Outcome,
  raised, returned, ack_if, publish, dead_letter_message, handle_failure, handle_success, settle,
  adopt_family, reported_family, on_decoded, last_error, death,
}
use ragent.Workers.Consumer.Outcomes.{sent, publish-known}
use ragent.Workers.Consumer.Successes.{handle_success_lem}

-- How a message is sent on: as it is, to the dead-letter exchange, or as the next attempt, to the
-- retry exchange of the delay that its stage has for this attempt.
abbrev pub IsSentOn : List Stage → StageMessage → Publication → Type 0
IsSentOn pipeline m p =
    (p.exchange ≡ dlx_exchange) × (p.body ≡ m)
    ⊎ ((s : Stage) × (ms : ℕ) × (stage_by_name pipeline m.stage ≡ some s)
        × (retry_delay_ms s m.attempt ≡ Stages.ok (some ms))
        × (p.exchange ≡ retry_exchange_name ms)
        × (p.body ≡ record m { attempt = m.attempt + 1 }))

-- The message is done, or it was sent on: its stage has succeeded, or the delivery published one
-- more message, which sends it on.
abbrev pub Accounted : List Stage → StageMessage → World → World → Type 0
Accounted pipeline m before after =
    (is_completed after.store m.run_id m.stage ≡ true)
    ⊎ ((p : Publication) × (after.published ≡ before.published ++ p ∷ []) × IsSentOn pipeline m p)

module _ (pipeline : List Stage) where
  publish-unknown :
      (exchange : String) (m : StageMessage) (headers : Headers) (w : World)
      → stage_by_name pipeline m.stage ≡ none
      → publish pipeline exchange m headers w ≡ (w, false)
  unfolding publish
  publish-unknown exchange m headers w e = rw (e, publish)

  -- An acknowledgement after a publication means that the message was sent.
  Accounted-publish :
      (exchange : String) (m m' : StageMessage) (headers : Headers) (before w : World)
      → w.published ≡ before.published
      → ((p : Publication) → p.exchange ≡ exchange → p.body ≡ m' → IsSentOn pipeline m p)
      → (ack_if (publish pipeline exchange m' headers w)).1 ≡ acked
      → Accounted pipeline m before (ack_if (publish pipeline exchange m' headers w)).0
  Accounted-publish exchange m m' headers before w same route h =
      elim (Option-cases (stage_by_name pipeline m'.stage)) [
        | inl e ↦ cc (rw (publish-unknown exchange m' headers w e) at h)
        | inr (st, e) ↦ rw (publish-known pipeline exchange m' headers w e) (
            inr
              (sent exchange m' headers st, rw same, route (sent exchange m' headers st) refl refl))
      ]

  to_dlx :
      (m : StageMessage) (p : Publication)
      → p.exchange ≡ dlx_exchange
      → p.body ≡ m
      → IsSentOn pipeline m p
  to_dlx m p e b = inl (e, b)

  -- A retry goes to the exchange of the stage's delay.
  retry_route :
      (m : StageMessage) (exc : Failure) (ms attempt : ℕ) (exchange : String)
      → plan_failure pipeline m exc ≡ Stages.ok (retry ms exchange attempt)
      → (p : Publication) → p.exchange ≡ exchange
      → p.body ≡ retried m
      → IsSentOn pipeline m p
  unfolding retried plan_failure
  retry_route m exc ms attempt exchange h p e b =
      elim (Option-cases (stage_by_name pipeline m.stage)) [
        | inl unknown ↦ cc (rw (unknown, plan_failure) at h)
        | inr (s, known) ↦ elim (Bool-cases (is_permanent exc)) [
          | inl permanent ↦ cc (rw (known, permanent, plan_failure) at h)
          | inr passing ↦ elim (retry_delay_ms_cases s m.attempt) [
            | inl d ↦ cc (rw (known, passing, d.1, plan_failure) at h)
            | inr (inl d) ↦ cc (rw (known, passing, d.2, plan_failure) at h)
            | inr (inr (inl d)) ↦ inr (
              s,
              _,
              known,
              d.2,
              e ∙ same_exchange (rw (known, passing, d.2, plan_failure) at h),
              b,
            )
            | inr (inr (inr (inl d))) ↦ inr (
              s,
              _,
              known,
              d.2,
              e ∙ same_exchange (rw (known, passing, d.2, plan_failure) at h),
              b,
            )
            | inr (inr (inr (inr d))) ↦ inr (
              s,
              _,
              known,
              d.2,
              e ∙ same_exchange (rw (known, passing, d.2, plan_failure) at h),
              b,
            )
          ]
        ]
      ]
    where
      same_exchange :
          {ms' attempt' : ℕ} {exchange' : String}
          → ◌≡◌ {A = Stages.Result Action}
              (Stages.ok (retry ms' exchange' attempt'))
              (Stages.ok (retry ms exchange attempt))
          → exchange ≡ exchange'
      same_exchange q = cc

  Accounted-handle_failure :
      (m : StageMessage) (exc : Failure) (before w : World)
      → w.published ≡ before.published
      → (handle_failure pipeline m exc w).1 ≡ acked
      → Accounted pipeline m before (handle_failure pipeline m exc w).0
  unfolding handle_failure dead_letter_message retried
  Accounted-handle_failure m exc before w same h = go (plan_failure pipeline m exc) refl
    where
      go :
          (a : Stages.Result Action)
          → plan_failure pipeline m exc ≡ a
          → Accounted pipeline m before (handle_failure pipeline m exc w).0
      go (Stages.err e) q = cc (rw (q, handle_failure) at h)
      go (Stages.ok (retry ms exchange attempt)) q =
          rw (q, handle_failure)
            (Accounted-publish exchange m (retried m) (retry_headers attempt exc) before
              (record w { store = fail_stage m.run_id m.stage (last_error exc) false w.store }) same
              (retry_route m exc ms attempt exchange q) (rw (q, handle_failure) at h))
      go (Stages.ok (dead_letter reason)) q =
          rw (q, handle_failure)
            (Accounted-publish dlx_exchange m m (death_headers reason) before
              (record w { store = fail_stage m.run_id m.stage (death reason) true w.store }) same
              (to_dlx m) (rw (q, handle_failure) at h))

  adopted_same :
      (m m' : StageMessage) (v : Option Json)
      → adopt_family m v ≡ some m'
      → (m'.run_id ≡ m.run_id) × (m'.stage ≡ m.stage)
  unfolding adopt_family with_family
  adopted_same m m' v h = ground arith

  module _ (apart : distinct (names pipeline) ≡ true) where
    success_completes :
        (m m' : StageMessage) (w : World)
        → m'.run_id ≡ m.run_id
        → m'.stage ≡ m.stage
        → is_completed (handle_success pipeline m' w).0.store m.run_id m.stage ≡ true
    success_completes m m' w r s = ground (
      arith,
      (handle_success_lem pipeline m' w apart).2 m.run_id m.stage,
      (eq_iff m'.run_id m.run_id).1 r,
      (eq_iff m'.stage m.stage).1 s,
    )

    Accounted-settle :
        (m : StageMessage) (o : Outcome) (before w : World)
        → w.published ≡ before.published
        → (settle pipeline m o w).1 ≡ acked
        → Accounted pipeline m before (settle pipeline m o w).0
    unfolding settle
    Accounted-settle m (raised exc) before w same h = Accounted-handle_failure m exc before w same h
    Accounted-settle m (returned metrics) before w same h =
        elim (Option-cases (adopt_family m (reported_family metrics))) [
          | inl e ↦ cc (rw (e, settle) at h)
          | inr (m', e) ↦
              let (r, s) = adopted_same m m' (reported_family metrics) e in
              rw (e, settle) (inl (success_completes m m' w r s))
        ]

    -- No delivery is acknowledged and lost. An acknowledged message has either succeeded, and then
    -- its stage is recorded as completed for its run, or exactly one more publication sent it on:
    -- unchanged to the dead-letter exchange, or as the next attempt to the retry exchange of the
    -- delay that its stage has after this attempt. The pipeline's stage names are distinct.
    pub acked_is_Accounted :
        (handlers : Dict Handler) (m : StageMessage) (w : World)
        → (on_decoded pipeline handlers m w).1 ≡ acked
        → Accounted pipeline m w (on_decoded pipeline handlers m w).0
    unfolding on_decoded dead_letter_message
    acked_is_Accounted handlers m w h = elim (Option-cases (get_handler m.stage handlers)) [
      | inl e ↦
          rw (e, on_decoded)
            (Accounted-publish dlx_exchange m m (death_headers (no_handler m.stage)) w w refl
              (to_dlx m) (rw (e, on_decoded) at h))
      | inr (run, e) ↦
          rw (e, on_decoded) (Accounted-settle m (run m) w _ refl (rw (e, on_decoded) at h))
    ]

  -- A message whose stage the pipeline does not know, and that has no handler or whose handler
  -- raises, is rejected and never published: the dead-letter publication that would carry the
  -- reason cannot find the stage's routing key.
  pub unknown_stage_is_rejected :
      (handlers : Dict Handler) (m : StageMessage) (w : World)
      → stage_by_name pipeline m.stage ≡ none
      → ((get_handler m.stage handlers ≡ none) → on_decoded pipeline handlers m w ≡ (w, rejected))
        × ((exc : Failure)
            → ((handle_failure pipeline m exc w).1 ≡ rejected)
              × ((handle_failure pipeline m exc w).0.published ≡ w.published))
  unfolding on_decoded handle_failure dead_letter_message
  unknown_stage_is_rejected handlers m w unknown = (
    λ e. rw (e, on_decoded) (rw (publish-unknown dlx_exchange m _ w unknown)),
    λ exc.
        let plan = (plan_failure_permanent pipeline m exc).0 unknown in
        let sent_to = λ (v : World).
          publish-unknown dlx_exchange m (death_headers (unknown_stage m.stage)) v unknown in
        rw (plan, handle_failure)
          (rw
            (sent_to (record w {
              store = fail_stage m.run_id m.stage (death (unknown_stage m.stage)) true w.store;
            }))
            (refl, refl)),
  )
