-- ===== src/Workers/Consumer/Outcomes.antt =====
-- What one delivery does, for each thing that a handler can do.
use mathlib.Core.List.{Memᴰ, append-nil, append_assoc}
use ragent.Common.{
  String, ◌≡◌, refl, true, some, List, [], ◌∷◌, ◌++◌, map, is_empty, distinct, if◌then◌else◌,
}
use ragent.Pipeline.Stages.{Stage, names, stage_by_name, routing_key, ready_stages}
use ragent.Pipeline.Stages.Lookup.{stage_by_name_of_mem}
use ragent.Pipeline.Stages.Ready.{mem-ready_stages_iff}
use ragent.Pipeline.Messages.{StageMessage, for_stage}
use ragent.Pipeline.Topology.{ingest_exchange}
use ragent.Pipeline.Store.{StageStore, complete_stage, mark_dispatched}
use ragent.Pipeline.Runner.{next_messages}
use ragent.Pipeline.Runner.Handoff.{stage_names, map-names}
use ragent.Workers.Consumer.{
  Publication, Headers, plain, World, acked, StoredError, ack_if, publish, publish_all,
  handle_success,
}

-- The publication that starts a follower of a finished stage.
abbrev pub follower : StageMessage → Stage → Publication
follower message s = record {
  exchange = ingest_exchange;
  routing_key = routing_key s;
  body = record message { stage = s.name; attempt = 1 };
  trace_id = message.trace_id;
  headers = plain;
}

-- The stages that become ready when `message.stage` has finished in the store.
abbrev pub newly_ready : List Stage → StageMessage → StageStore StoredError → List Stage
newly_ready pipeline message store =
    let snapshot = (complete_stage message.run_id message.stage store).0 in
    ready_stages pipeline message.family snapshot.completed snapshot.dispatched

-- What `_publish` sends for a message whose stage is known.
abbrev pub sent : String → StageMessage → Headers → Stage → Publication
sent exchange message headers s = record {
  exchange = exchange;
  routing_key = routing_key s;
  body = message;
  trace_id = message.trace_id;
  headers = headers;
}

pub publish-known :
    (pipeline : List Stage) (exchange : String) (message : StageMessage) (headers : Headers)
    (w : World) {s : Stage}
    → stage_by_name pipeline message.stage ≡ some s
    → publish pipeline exchange message headers w
      ≡ (record w { published = w.published ++ sent exchange message headers s ∷ [] }, true)
unfolding publish
publish-known pipeline exchange message headers w found = rw (found, publish)

-- The store after a success: the finished stage, and then its followers, are recorded.
abbrev pub reserved : StageMessage → StageStore StoredError → List Stage → StageStore StoredError
reserved message store l =
    if is_empty l then store else mark_dispatched message.run_id (names l) store

module _ (pipeline : List Stage) (message : StageMessage)
    (apart : distinct (names pipeline) ≡ true) where
  publish_all-followers :
      (l : List Stage) (w : World)
      → ((s : Stage) → Memᴰ s l → Memᴰ s pipeline)
      → publish_all pipeline (map (λ (s : Stage). for_stage s.name message) l) w
        ≡ (record w { published = w.published ++ map (follower message) l }, true)
  unfolding publish_all for_stage
  publish_all-followers [] w known = rw append-nil
  publish_all-followers (s ∷ l) w known =
      let found = stage_by_name_of_mem pipeline s apart (known s (Memᴰ.head refl)) in
      let first = publish-known pipeline ingest_exchange (for_stage s.name message) plain w found in
      let w' : World = record w { published = w.published ++ follower message s ∷ [] } in
      let rest = publish_all-followers l w' (λ t m. known t (Memᴰ.tail m)) in
      rw first (rw rest (rw append_assoc))

  hand_off :
      (l : List Stage) (store : StageStore StoredError) (w : World)
      → ((s : Stage) → Memᴰ s l → Memᴰ s pipeline)
      → (if is_empty (map (λ (s : Stage). for_stage s.name message) l)
          then (record w { store = store }, acked)
          else ack_if (
              publish_all pipeline (map (λ (s : Stage). for_stage s.name message) l) (record w {
                store =
                    mark_dispatched message.run_id
                      (stage_names (map (λ (s : Stage). for_stage s.name message) l))
                      store;
              })))
        ≡ (
          record {
            store = reserved message store l;
            published = w.published ++ map (follower message) l;
          },
          acked,
        )
  hand_off [] store w known = rw append-nil
  hand_off (s ∷ l) store w known = rw (map-names message (s ∷ l)) (
      rw (
        publish_all-followers (s ∷ l)
          (record w { store = mark_dispatched message.run_id (names (s ∷ l)) store }) known))

  pub handle_success-eq :
      (w : World)
      → handle_success pipeline message w ≡ (
        record {
          store =
              reserved message
                (complete_stage message.run_id message.stage w.store).1
                (newly_ready pipeline message w.store);
          published = w.published ++ map (follower message) (newly_ready pipeline message w.store);
        },
        acked,
      )
  unfolding handle_success next_messages
  handle_success-eq w =
      let (snapshot, store) = complete_stage message.run_id message.stage w.store in
      hand_off (ready_stages pipeline message.family snapshot.completed snapshot.dispatched) store w
        (λ s m.
          ((mem-ready_stages_iff pipeline message.family snapshot.completed snapshot.dispatched s).0
            m).0)
