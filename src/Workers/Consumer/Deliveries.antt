-- ===== src/Workers/Consumer/Deliveries.antt =====
-- Any sequence of deliveries keeps the store and the broker tidy.
use mathlib.Core.List.{append-nil}
use ragent.Common.{
  String, ◌≡◌, refl, inl, inr, true, false, List, [], ◌++◌, arith, contains, distinct, str_eq,
  eq_iff, Bool-cases, Option-cases, if◌then◌else◌, contains-append,
}
use ragent.Common.Dict.{Dict, get_or}
use ragent.Pipeline.Json.{Json}
use ragent.Pipeline.Stages.{Stage, names}
use ragent.Pipeline.Stages.Lookup.{mem_of_contains}
use ragent.Pipeline.Stages.Ready.{mem-ready_stages_iff}
use ragent.Pipeline.Messages
use ragent.Pipeline.Messages.{StageMessage, Codec, Decoded, malformed, from_bytes}
use ragent.Pipeline.Store.{StageStore, complete_stage, snapshot}
use ragent.Pipeline.Store.Laws.{is_completed, is_dispatched, complete_stage_lem}
use ragent.Pipeline.Runner.Handoff.{ready_stages-distinct}
use ragent.Pipeline.Runner.{no_handler}
use ragent.Pipeline.Handlers.{get_handler}
use ragent.Workers.Consumer.{
  World, StoredError, Handler, Outcome, raised, returned, handle_success, settle, adopt_family,
  reported_family, on_decoded, on_message,
}
use ragent.Workers.Consumer.Outcomes.{newly_ready}
use ragent.Workers.Consumer.Successes.{handle_success_lem}
use ragent.Workers.Consumer.Once.{
  queued, queued-append, queued-followers, distinct-append, IsTidy, IsTidy-begin_stage,
  IsTidy-dead_letter, IsTidy-handle_failure,
}

-- A stage that has become ready was not dispatched before.
newly_ready-fresh :
    (pipeline : List Stage) (m : StageMessage) (store : StageStore StoredError) (n : String)
    → contains (names (newly_ready pipeline m store)) n ≡ true
    → is_dispatched store m.run_id n ≡ false
unfolding complete_stage snapshot
newly_ready-fresh pipeline m store n listed =
    let snapshot = (complete_stage m.run_id m.stage store).0 in
    let (s, there, named) = mem_of_contains (newly_ready pipeline m store) n listed in
    let may =
      ((mem-ready_stages_iff pipeline m.family snapshot.completed snapshot.dispatched s).0
        there).1 in
    let idle : is_dispatched (complete_stage m.run_id m.stage store).1 m.run_id n ≡ false =
      rw named at may.idle in
    ground (arith, idle, (complete_stage_lem store m.run_id m.stage m.run_id n).1)

abbrev pub empty_world : World
empty_world = record {
  store = record { completed = []; dispatched = []; errors = []; attempts = [] };
  published = [];
}

IsTidy-empty : IsTidy empty_world
unfolding get_or
IsTidy-empty = record { once = λ r. refl; known = λ r n q. cc; sound = λ r n q. cc }

module _ (pipeline : List Stage) (apart : distinct (names pipeline) ≡ true) where
  queued_after :
      (m : StageMessage) (w : World) (run_id : String)
      → queued run_id (handle_success pipeline m w).0.published
        ≡ queued run_id w.published
          ++ (if str_eq m.run_id run_id then names (newly_ready pipeline m w.store) else [])
  queued_after m w run_id =
      rw ((handle_success_lem pipeline m w apart).1, queued-append) (rw queued-followers)

  IsTidy-handle_success :
      (m : StageMessage) (w : World) → IsTidy w → IsTidy (handle_success pipeline m w).0
  IsTidy-handle_success m w h =
      let (_, _, done, sent) = handle_success_lem pipeline m w apart in
      record {
        once = λ r. rw queued_after (elim (Bool-cases (str_eq m.run_id r)) [
          | inl e ↦ rw e (
              distinct-append (queued r w.published) (names (newly_ready pipeline m w.store))
                (h.once r) (ready_stages-distinct pipeline m.family _ _ apart)
                (λ n q. ground (
                  arith,
                  h.known r n,
                  newly_ready-fresh pipeline m w.store n,
                  (eq_iff m.run_id r).0 e,
                )))
          | inr e ↦ rw e (rw (append-nil (queued r w.published)) (h.once r))
        ]);
        known = λ r n.
            rw (queued_after, sent, contains-append)
              (elim (Bool-cases (str_eq m.run_id r)) [
                | inl e ↦ rw e (λ q. ground (arith, h.known r n))
                | inr e ↦ rw e (λ q. ground (arith, h.known r n))
              ]);
        sound = λ r n q. ground (arith, done r n, sent r n, h.sound r n);
      }

  IsTidy-settle :
      (m : StageMessage) (o : Outcome) (w : World) → IsTidy w → IsTidy (settle pipeline m o w).0
  unfolding settle
  IsTidy-settle m (raised exc) w h = IsTidy-handle_failure pipeline m exc w h
  IsTidy-settle m (returned metrics) w h =
      elim (Option-cases (adopt_family m (reported_family metrics))) [
        | inl e ↦ rw (e, settle) h
        | inr (m', e) ↦ rw (e, settle) (IsTidy-handle_success m' w h)
      ]

  IsTidy-on_decoded :
      (handlers : Dict Handler) (m : StageMessage) (w : World)
      → IsTidy w
      → IsTidy (on_decoded pipeline handlers m w).0
  unfolding on_decoded
  IsTidy-on_decoded handlers m w h = elim (Option-cases (get_handler m.stage handlers)) [
    | inl e ↦ rw (e, on_decoded) (IsTidy-dead_letter pipeline m (no_handler m.stage) w h)
    | inr (run, e) ↦
        rw (e, on_decoded)
          (IsTidy-settle m (run m) _ (IsTidy-begin_stage w m.run_id m.stage m.attempt h))
  ]

  module _ (render : Json → String) (codec : Codec) where
    -- One delivery, of any bytes to any handlers, keeps the state tidy.
    pub on_message-IsTidy :
        (fresh : String) (handlers : Dict Handler) (raw : codec.Bytes) (w : World)
        → IsTidy w
        → IsTidy (on_message pipeline render codec fresh handlers raw w).0
    unfolding on_message
    on_message-IsTidy fresh handlers raw w h = go (from_bytes render codec fresh raw) refl
      where
        go :
            (d : Decoded StageMessage)
            → from_bytes render codec fresh raw ≡ d
            → IsTidy (on_message pipeline render codec fresh handlers raw w).0
        go (malformed e) q = rw (q, on_message) h
        go (Messages.ok m) q = rw (q, on_message) (IsTidy-on_decoded handlers m w h)

    -- The worlds that workers can reach from an empty one, by deliveries in any order. Each
    -- delivery may find other handlers and may repeat an earlier message.
    pub data Reach : World → Type 0 where
      start : Reach empty_world
      deliver :
          {w : World} (fresh : String) (handlers : Dict Handler) (raw : codec.Bytes)
          → Reach w
          → Reach (on_message pipeline render codec fresh handlers raw w).0

    Reach-IsTidy : {w : World} → Reach w → IsTidy w
    Reach-IsTidy start = IsTidy-empty
    Reach-IsTidy (deliver {w = w} fresh handlers raw r) =
        on_message-IsTidy fresh handlers raw w (Reach-IsTidy r)

    -- However the deliveries are ordered, repeated and handled, no stage of a run is published to
    -- start twice, each that is was recorded as dispatched, and so was each that has succeeded, if
    -- the pipeline's stages have distinct names.
    pub no_stage_starts_twice :
        {w : World}
        → Reach w
        → (run_id : String)
        → (distinct (queued run_id w.published) ≡ true)
          × ((n : String)
              → contains (queued run_id w.published) n ≡ true
              → is_dispatched w.store run_id n ≡ true)
          × ((n : String)
              → is_completed w.store run_id n ≡ true
              → is_dispatched w.store run_id n ≡ true)
    no_stage_starts_twice r run_id =
        let h = Reach-IsTidy r in (h.once run_id, h.known run_id, h.sound run_id)
