-- ===== src/Pipeline/Topology/Wiring.antt =====
-- Every exchange that a queue of the topology names is declared.
use ragent.Common.{
  ℕ, String, ◌≡◌, refl, true, some, List, [], ◌∷◌, ◌++◌, map, arith, contains, Each, Each-append,
  Subset, eq_refl,
}
use ragent.Pipeline.Stages.{Stage}
use ragent.Pipeline.Topology.{
  ExchangeSpec, QueueSpec, ingest_exchange, dlx_exchange, retry_exchange_name, retry_queue,
  retry_exchange, base_exchanges, stage_queues, build_topology, BrokerCall, declare_exchange,
  declare_queue, bind, declare_queues, declare,
}

abbrev pub exchange_names : List ExchangeSpec → List String
exchange_names exchanges = map (λ (e : ExchangeSpec). e.name) exchanges

-- A queue is bound to a declared exchange, and its dead letters go to one.
pub record IsWired (declared : List String) (q : QueueSpec) : Type 0 where
  pub bound : contains declared q.exchange ≡ true
  pub dead_letters :
      (x : String) → q.arguments.dead_letter_exchange ≡ some x → contains declared x ≡ true

-- What `declare` calls for its queues: each is declared and then bound by its own key.
abbrev pub queue_calls : List QueueSpec → List BrokerCall
queue_calls [] = []
queue_calls (q ∷ rest) = declare_queue q ∷ bind q.name q.exchange q.routing_key ∷ queue_calls rest

declare_queues-eq :
    (declared : List String) (queues : List QueueSpec)
    → Each (IsWired declared) queues
    → declare_queues declared queues ≡ some (queue_calls queues)
unfolding declare_queues
declare_queues-eq declared [] wired = refl
declare_queues-eq declared (q ∷ rest) wired =
    rw (wired.0.bound, declare_queues-eq declared rest wired.1)

module _ (declared : List String) (has_ingest : contains declared ingest_exchange ≡ true)
    (has_dlx : contains declared dlx_exchange ≡ true) where
  IsWired-stage_queues : (pipeline : List Stage) → Each (IsWired declared) (stage_queues pipeline)
  unfolding stage_queues
  IsWired-stage_queues [] = tt
  IsWired-stage_queues (s ∷ rest) = (
    record { bound = has_ingest; dead_letters = λ x e. ground (arith, has_dlx) },
    (record { bound = has_dlx; dead_letters = λ x e. cc }, IsWired-stage_queues rest),
  )

  IsWired-retry_queues :
      (delays : List ℕ)
      → Subset (exchange_names (map retry_exchange delays)) declared
      → Each (IsWired declared) (map retry_queue delays)
  IsWired-retry_queues [] sub = tt
  IsWired-retry_queues (d ∷ rest) sub = (
    record {
      bound = sub (retry_exchange_name d) (rw eq_refl);
      dead_letters = λ x e. ground (arith, has_ingest);
    },
    IsWired-retry_queues rest (λ n m. sub n (ground arith)),
  )

build_topology-IsWired :
    (pipeline : List Stage) (delays : List ℕ)
    → Each
        (IsWired (exchange_names (build_topology pipeline delays).exchanges))
        (build_topology pipeline delays).queues
unfolding build_topology
build_topology-IsWired pipeline delays =
    let declared = exchange_names (base_exchanges ++ map retry_exchange delays) in
    Each-append (IsWired declared) (stage_queues pipeline) (map retry_queue delays) (
      IsWired-stage_queues declared refl refl pipeline,
      IsWired-retry_queues declared refl refl delays (λ n m. ground arith),
    )

-- For any pipeline and any delays, `declare` never meets an undeclared exchange: it declares every
-- exchange, then declares each queue and binds it by its routing key. Every exchange that a queue
-- is bound to or sends its dead letters to is among the declared ones.
pub declare-build_topology :
    (pipeline : List Stage) (delays : List ℕ)
    → (declare (build_topology pipeline delays)
        ≡ some (
            map declare_exchange (build_topology pipeline delays).exchanges
            ++ queue_calls (build_topology pipeline delays).queues))
      × Each
          (IsWired (exchange_names (build_topology pipeline delays).exchanges))
          (build_topology pipeline delays).queues
unfolding declare
declare-build_topology pipeline delays =
    let wired = build_topology-IsWired pipeline delays in
    (rw (declare_queues-eq _ _ wired, declare), wired)
