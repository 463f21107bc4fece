-- ===== src/Pipeline/Topology.antt =====
-- The broker topology of ragent/pipeline/topology.py: exchanges and queues as data, and the calls
-- that `declare` makes on a channel. The channel is a list of calls here, oldest first.
pub mod Tiers
pub mod Wiring
use Prim.Native.Char.{Char}
use Prim.Native.String.{◌++◌ as str_append}
use ragent.Common.{
  ℕ, zero, suc, ◌+◌, ◌/◌, ◌%◌, String, Bool, true, false, Option, none, some, List, [], ◌∷◌, ◌++◌,
  str_eq, map, ◌==◌, ltb, if◌then◌else◌, contains, filter,
}
use ragent.Pipeline.Stages.{Stage, queue, dlq, routing_key}

-- INGEST_EXCHANGE and DLX_EXCHANGE
abbrev pub ingest_exchange : String
ingest_exchange = "ragent.ingest"

abbrev pub dlx_exchange : String
dlx_exchange = "ragent.dlx"

-- The unit in which `tier_label` counts a delay.
pub data TierUnit : Type 0 where
  hours minutes seconds milliseconds : TierUnit

unfoldable pub unit_ms : TierUnit → ℕ
unit_ms hours = 3_600_000
unit_ms minutes = 60_000
unit_ms seconds = 1_000
unit_ms milliseconds = 1

unfoldable pub unit_suffix : TierUnit → String
unit_suffix hours = "h"
unit_suffix minutes = "m"
unit_suffix seconds = "s"
unit_suffix milliseconds = "ms"

-- The number and the unit of `tier_label`'s text.
unfoldable pub tier_parts : ℕ → ℕ × TierUnit
tier_parts delay_ms =
    if delay_ms % 3_600_000 == 0
    then (delay_ms / 3_600_000, hours)
    else if delay_ms % 60_000 == 0
    then (delay_ms / 60_000, minutes)
    else if delay_ms % 1_000 == 0
    then (delay_ms / 1_000, seconds)
    else (delay_ms, milliseconds)

digit : ℕ → String
digit zero = "0"
digit (suc zero) = "1"
digit (suc (suc zero)) = "2"
digit (suc (suc (suc zero))) = "3"
digit (suc (suc (suc (suc zero)))) = "4"
digit (suc (suc (suc (suc (suc zero))))) = "5"
digit (suc (suc (suc (suc (suc (suc zero)))))) = "6"
digit (suc (suc (suc (suc (suc (suc (suc zero))))))) = "7"
digit (suc (suc (suc (suc (suc (suc (suc (suc zero)))))))) = "8"
digit _ = "9"

-- The decimal digits of a number, in front of `text`. A number has fewer digits than its value has
-- units, so the fuel `n + 1` is enough.
digits_of : ℕ → ℕ → String → String
unfolding digit
digits_of zero n text = text
digits_of (suc fuel) n text =
    let here = str_append (digit (n % 10)) text in
    let more = digits_of fuel (n / 10) here in if ltb n 10 then here else more

-- `str(n)`
unfoldable pub decimal : ℕ → String
unfolding digits_of
decimal n = digits_of (n + 1) n ""

unfoldable pub tier_label : ℕ → String
unfolding tier_parts unit_suffix decimal
tier_label delay_ms =
    let (n, unit) = tier_parts delay_ms in str_append (decimal n) (unit_suffix unit)

unfoldable pub retry_exchange_name : ℕ → String
unfolding tier_label
retry_exchange_name delay_ms = str_append "ragent.retry." (tier_label delay_ms)

pub data ExchangeType : Type 0 where
  topic fanout : ExchangeType

pub record ExchangeSpec : Type 0 where
  pub name : String
  pub type : ExchangeType
  pub durable : Bool

-- The arguments that the queues are declared with.
pub record QueueArguments : Type 0 where
  pub message_ttl : Option ℕ
  pub dead_letter_exchange : Option String

pub record QueueSpec : Type 0 where
  pub name : String
  pub exchange : String
  pub routing_key : String
  pub durable : Bool
  pub prefetch : ℕ
  pub arguments : QueueArguments
  pub consumed : Bool

pub record Topology : Type 0 where
  pub exchanges : List ExchangeSpec
  pub queues : List QueueSpec

-- `Topology.queue`: the first queue of that name, or a KeyError.
unfoldable pub find_queue : List QueueSpec → String → Option QueueSpec
find_queue [] name = none
find_queue (q ∷ rest) name = if str_eq q.name name then some q else find_queue rest name

unfoldable pub work_queues : Topology → List QueueSpec
work_queues t = filter (λ (q : QueueSpec). q.consumed) t.queues

abbrev pub work_queue : Stage → QueueSpec
work_queue stage = record {
  name = queue stage;
  exchange = ingest_exchange;
  routing_key = routing_key stage;
  durable = true;
  prefetch = stage.prefetch;
  arguments = record { message_ttl = none; dead_letter_exchange = some dlx_exchange };
  consumed = true;
}

abbrev pub dead_letter_queue : Stage → QueueSpec
dead_letter_queue stage = record {
  name = dlq stage;
  exchange = dlx_exchange;
  routing_key = routing_key stage;
  durable = true;
  prefetch = 4;
  arguments = record { message_ttl = none; dead_letter_exchange = none };
  consumed = false;
}

abbrev pub retry_queue : ℕ → QueueSpec
retry_queue delay_ms = record {
  name = retry_exchange_name delay_ms;
  exchange = retry_exchange_name delay_ms;
  routing_key = "";
  durable = true;
  prefetch = 4;
  arguments = record { message_ttl = some delay_ms; dead_letter_exchange = some ingest_exchange };
  consumed = false;
}

-- The first loop of `build_topology`.
unfoldable pub stage_queues : List Stage → List QueueSpec
stage_queues [] = []
stage_queues (s ∷ rest) = work_queue s ∷ dead_letter_queue s ∷ stage_queues rest

-- The second loop: one exchange and one queue for each delay.
abbrev pub retry_exchange : ℕ → ExchangeSpec
retry_exchange delay_ms = record {
  name = retry_exchange_name delay_ms;
  type = fanout;
  durable = true;
}

abbrev pub base_exchanges : List ExchangeSpec
base_exchanges =
    record { name = ingest_exchange; type = topic; durable = true }
    ∷ record { name = dlx_exchange; type = topic; durable = true }
    ∷ []

unfoldable pub build_topology : List Stage → List ℕ → Topology
unfolding stage_queues
build_topology pipeline retry_delays = record {
  exchanges = base_exchanges ++ map retry_exchange retry_delays;
  queues = stage_queues pipeline ++ map retry_queue retry_delays;
}

-- The calls that `declare` makes.
pub data BrokerCall : Type 0 where
  declare_exchange : ExchangeSpec → BrokerCall
  declare_queue : QueueSpec → BrokerCall
  bind : (queue_name exchange_name key : String) → BrokerCall

-- The loop over the queues. `declared[spec.exchange]` is a KeyError for an exchange that was not
-- declared, which is `none`.
unfoldable pub declare_queues : List String → List QueueSpec → Option (List BrokerCall)
declare_queues declared [] = some []
declare_queues declared (q ∷ rest) =
    let after = declare_queues declared rest in
    if contains declared q.exchange
    then (elim after [
      | none ↦ none
      | some calls ↦ some (declare_queue q ∷ bind q.name q.exchange q.routing_key ∷ calls)
    ])
    else none

unfoldable pub declare : Topology → Option (List BrokerCall)
unfolding declare_queues
declare t = elim (declare_queues (map (λ (e : ExchangeSpec). e.name) t.exchanges) t.queues) [
  | none ↦ none
  | some calls ↦ some (map declare_exchange t.exchanges ++ calls)
]
