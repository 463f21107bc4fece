-- ===== src/Workers/Consumer.antt =====
-- `StageConsumer` of ragent/workers/run.py: what one delivery does to the store and the broker.
-- The broker is the list of publications so far. A handler is a parameter, a function from the
-- message to what it returns or raises. An exception that leaves `_on_message` rejects the
-- delivery (`raw.process(requeue=False)`); what was written before it stays written.
pub mod Outcomes
pub mod Successes
pub mod Once
pub mod Accounting
pub mod Deliveries
use ragent.Common.{
  ℕ, ◌+◌, String, Bool, true, false, Option, none, some, List, [], ◌∷◌, ◌++◌, map, if◌then◌else◌,
  is_empty,
}
use ragent.Common.Dict.{Dict, get?}
use ragent.Ingest.Formats.{FormatFamily, family_of}
use ragent.Pipeline.Json.{Json, str, Fields, field_of, is_falsy}
use ragent.Pipeline.Stages
use ragent.Pipeline.Stages.{Stage, stage_by_name, routing_key}
use ragent.Pipeline.Messages
use ragent.Pipeline.Messages.{
  StageMessage, Malformed, Decoded, malformed, Codec, from_bytes, with_family, retried,
}
use ragent.Pipeline.Topology.{ingest_exchange, dlx_exchange}
use ragent.Pipeline.Store.{
  StageStore, StageSnapshot, begin_stage, complete_stage, fail_stage, mark_dispatched,
}
use ragent.Pipeline.Runner.{
  Failure, DeathReason, no_handler, Action, retry, dead_letter, plan_failure, next_messages,
}
use ragent.Pipeline.Handlers.{get_handler}

-- What a handler does: it returns its metrics, or `None`, or it raises.
pub data Outcome : Type 0 where
  returned : Option Fields → Outcome
  raised : Failure → Outcome

abbrev pub Handler : Type 0
Handler = StageMessage → Outcome

-- The error that a store keeps for a stage.
pub data StoredError : Type 0 where
  last_error : Failure → StoredError
  death : DeathReason → StoredError

-- The headers of a publication, beside `x-trace-id`.
pub data Headers : Type 0 where
  plain : Headers
  retry_headers : (attempt : ℕ) (reason : Failure) → Headers
  death_headers : DeathReason → Headers

pub record Publication : Type 0 where
  pub exchange : String
  pub routing_key : String
  pub body : StageMessage
  pub trace_id : String
  pub headers : Headers

pub record World : Type 0 where
  pub store : StageStore StoredError
  pub published : List Publication

pub data Delivery : Type 0 where
  acked rejected : Delivery

-- `raw.ack()` at the end, or the rejection of a delivery that an exception has left.
abbrev pub ack_if : World × Bool → World × Delivery
ack_if (w, true) = (w, acked)
ack_if (w, false) = (w, rejected)

-- `if metrics and metrics.get("family")`, and the value that is read then.
unfoldable pub reported_family : Option Fields → Option Json
reported_family none = none
reported_family (some metrics) = elim (field_of metrics "family") [
  | none ↦ none
  | some v ↦ if is_falsy v then none else some v
]

-- The message with the family that its handler has found. `none` is the ValueError of
-- `FormatFamily(…)`.
unfoldable pub adopt_family : StageMessage → Option Json → Option StageMessage
adopt_family message none = some message
adopt_family message (some (str text)) = elim (family_of text) [
  | none ↦ none
  | some family ↦ some (with_family family message)
]
adopt_family message (some v) = none

module _ (pipeline : List Stage) where
  -- `_publish`, with `false` for the KeyError of `STAGES_BY_NAME[message.stage]`.
  unfoldable pub publish : String → StageMessage → Headers → World → World × Bool
  publish exchange message headers w = elim (stage_by_name pipeline message.stage) [
    | none ↦ (w, false)
    | some stage ↦
        let p : Publication = record {
          exchange = exchange;
          routing_key = routing_key stage;
          body = message;
          trace_id = message.trace_id;
          headers = headers;
        } in
        (record w { published = w.published ++ p ∷ [] }, true)
  ]

  -- The loop that publishes the followers. A KeyError ends it.
  unfoldable pub publish_all : List StageMessage → World → World × Bool
  publish_all [] w = (w, true)
  publish_all (m ∷ rest) w =
      let (w', done) = publish ingest_exchange m plain w in
      let after = publish_all rest w' in if done then after else (w', false)

  unfoldable pub dead_letter_message : StageMessage → DeathReason → World → World × Bool
  dead_letter_message message reason w = publish dlx_exchange message (death_headers reason) w

  unfoldable pub handle_failure : StageMessage → Failure → World → World × Delivery
  handle_failure message exc w = elim (plan_failure pipeline message exc) [
    | Stages.err _ ↦ (w, rejected)
    | Stages.ok (retry delay_ms exchange attempt) ↦
        let store = fail_stage message.run_id message.stage (last_error exc) false w.store in
        ack_if (
          publish exchange (retried message) (retry_headers attempt exc)
            (record w { store = store }))
    | Stages.ok (dead_letter reason) ↦
        let store = fail_stage message.run_id message.stage (death reason) true w.store in
        ack_if (dead_letter_message message reason (record w { store = store }))
  ]

  -- What follows when the handler has returned and the family is settled.
  unfoldable pub handle_success : StageMessage → World → World × Delivery
  handle_success message w =
      let (snapshot, store) = complete_stage message.run_id message.stage w.store in
      let followers = next_messages pipeline message snapshot.completed snapshot.dispatched in
      let stages = map (λ (m : StageMessage). m.stage) followers in
      if is_empty followers
      then (record w { store = store }, acked)
      else ack_if
          (publish_all followers (record w { store = mark_dispatched message.run_id stages store }))

  -- What follows when the handler has been called.
  unfoldable pub settle : StageMessage → Outcome → World → World × Delivery
  settle message (raised exc) w = handle_failure message exc w
  settle message (returned metrics) w = elim (adopt_family message (reported_family metrics)) [
    | none ↦ (w, rejected)
    | some m ↦ handle_success m w
  ]

  unfoldable pub on_decoded : Dict Handler → StageMessage → World → World × Delivery
  on_decoded handlers message w = elim (get_handler message.stage handlers) [
    | none ↦ ack_if (dead_letter_message message (no_handler message.stage) w)
    | some run ↦
        let begun = record w {
          store = begin_stage message.run_id message.stage message.attempt w.store;
        } in
        settle message (run message) begun
  ]

  unfoldable pub on_message :
      (render : Json → String) (codec : Codec) (fresh : String)
      → Dict Handler
      → codec.Bytes
      → World
      → World × Delivery
  on_message render codec fresh handlers raw w = elim (from_bytes render codec fresh raw) [
    | malformed _ ↦ (w, rejected)
    | Messages.ok message ↦ on_decoded handlers message w
  ]
