-- ===== src/Workers/Consumer/Successes.antt =====
-- A stage that succeeds: its followers are reserved and published, and no ready stage is left
-- behind.
use mathlib.Core.List.{Memᴰ}
use ragent.Common.{
  String, ◌≡◌, refl, true, ◌&&◌, ◌||◌, List, [], ◌∷◌, ◌++◌, map, arith, is_empty, contains,
  distinct, str_eq, eq_iff, Subset,
}
use ragent.Common.Dict.{get_or}
use ragent.Ingest.Formats.{FormatFamily}
use ragent.Pipeline.Stages.{Stage, names, ready_stages, is_complete, validate_pipeline, ok}
use ragent.Pipeline.Stages.Lookup.{contains_of_mem}
use ragent.Pipeline.Stages.Progress.{is_complete_of_no_ready, order_of_valid}
use ragent.Pipeline.Stages.Ready.{MayStart, mem-ready_stages_iff}
use ragent.Pipeline.Messages.{StageMessage}
use ragent.Pipeline.Store.{StageStore, complete_stage, snapshot}
use ragent.Pipeline.Store.Laws.{
  is_completed, is_dispatched, is_dispatched-mark_dispatched, complete_stage_lem,
  completed-mark_dispatched,
}
use ragent.Workers.Consumer.{World, acked, StoredError, handle_success}
use ragent.Workers.Consumer.Outcomes.{follower, newly_ready, reserved, handle_success-eq}

empty_of_no_mem : (l : List Stage) → ((s : Stage) → Memᴰ s l → ⊥) → is_empty l ≡ true
empty_of_no_mem [] h = refl
empty_of_no_mem (s ∷ l) h = absurd (h s (Memᴰ.head refl))

-- When everything that was ready has been dispatched, nothing is ready.
pub no_ready_of_dispatched :
    (pipeline : List Stage) (family : FormatFamily) (completed dispatched later : List String)
    → Subset dispatched later
    → Subset (names (ready_stages pipeline family completed dispatched)) later
    → is_empty (ready_stages pipeline family completed later) ≡ true
no_ready_of_dispatched pipeline family completed dispatched later grows covers =
    empty_of_no_mem (ready_stages pipeline family completed later) λ s m.
      let (listed, may) = (mem-ready_stages_iff pipeline family completed later s).0 m in
      let before : MayStart pipeline family completed dispatched s = record {
        runs = may.runs;
        unfinished = may.unfinished;
        idle = ground (arith, grows s.name, may.idle);
        deps_done = may.deps_done;
      } in
      let ready =
        (mem-ready_stages_iff pipeline family completed dispatched s).1 (listed, before) in
      cc (covers s.name (contains_of_mem _ ready), may.idle)

module _ (message : StageMessage) where
  is_dispatched-reserved :
      (store : StageStore StoredError) (l : List Stage) (r n : String)
      → is_dispatched (reserved message store l) r n
        ≡ (str_eq message.run_id r && contains (names l) n || is_dispatched store r n)
  is_dispatched-reserved store [] r n = ground arith
  is_dispatched-reserved store (s ∷ l) r n =
      is_dispatched-mark_dispatched store message.run_id (names (s ∷ l)) r n

  completed-reserved :
      (store : StageStore StoredError) (l : List Stage)
      → (reserved message store l).completed ≡ store.completed
  completed-reserved store [] = refl
  completed-reserved store (s ∷ l) = completed-mark_dispatched store message.run_id (names (s ∷ l))

module _ (pipeline : List Stage) (message : StageMessage) (w : World)
    (apart : distinct (names pipeline) ≡ true) where
  -- A delivery whose handler succeeds is acknowledged. It publishes one message for each stage
  -- that has become ready, in order and behind what was published before, to the ingest exchange
  -- under that stage's routing key. The store gains the stage as succeeded, and that stage and
  -- those followers as dispatched, for this run and no other.
  pub handle_success_lem :
      ((handle_success pipeline message w).1 ≡ acked)
      × ((handle_success pipeline message w).0.published
          ≡ w.published ++ map (follower message) (newly_ready pipeline message w.store))
      × ((r n : String)
          → is_completed (handle_success pipeline message w).0.store r n
            ≡ (str_eq message.run_id r && str_eq message.stage n || is_completed w.store r n))
      × ((r n : String)
          → is_dispatched (handle_success pipeline message w).0.store r n ≡ (
              str_eq message.run_id r
                && (contains (names (newly_ready pipeline message w.store)) n
                    || str_eq message.stage n)
              || is_dispatched w.store r n))
  handle_success_lem =
      let ready = newly_ready pipeline message w.store in
      let store = (complete_stage message.run_id message.stage w.store).1 in
      rw (handle_success-eq pipeline message apart w) (
        refl,
        refl,
        λ r n.
            rw completed-reserved (complete_stage_lem w.store message.run_id message.stage r n).0,
        λ r n. ground (
          arith,
          is_dispatched-reserved message store ready r n,
          (complete_stage_lem w.store message.run_id message.stage r n).1,
        ),
      )

abbrev pub completed_in : StageStore StoredError → String → List String
completed_in store run_id = get_or store.completed run_id []

abbrev pub dispatched_in : StageStore StoredError → String → List String
dispatched_in store run_id = get_or store.dispatched run_id []

module _ (pipeline : List Stage) (message : StageMessage) where
  no_ready_reserved :
      (store : StageStore StoredError) (l : List Stage)
      → l
        ≡ ready_stages pipeline message.family
            (completed_in store message.run_id)
            (dispatched_in store message.run_id)
      → is_empty (
          ready_stages pipeline message.family
            (completed_in (reserved message store l) message.run_id)
            (dispatched_in (reserved message store l) message.run_id))
        ≡ true
  no_ready_reserved store l e = rw completed-reserved (
      no_ready_of_dispatched pipeline message.family (completed_in store message.run_id)
        (dispatched_in store message.run_id) _
        (λ n h. ground (arith, is_dispatched-reserved message store l message.run_id n))
        (rw (← e) (λ n h. ground (
          arith,
          is_dispatched-reserved message store l message.run_id n,
          (eq_iff message.run_id message.run_id).1 refl,
        ))))

  -- After a success no stage of the run is ready and left undispatched.
  pub no_ready_after_success :
      (w : World)
      → distinct (names pipeline) ≡ true
      → is_empty (
          ready_stages pipeline message.family
            (completed_in (handle_success pipeline message w).0.store message.run_id)
            (dispatched_in (handle_success pipeline message w).0.store message.run_id))
        ≡ true
  unfolding complete_stage snapshot
  no_ready_after_success w apart = rw (handle_success-eq pipeline message apart w) (
      no_ready_reserved (complete_stage message.run_id message.stage w.store).1
        (newly_ready pipeline message w.store) refl)

  -- A run does not stall. In a validated pipeline whose stages have distinct names, if after a
  -- success every dispatched stage of the run has succeeded, then the document is complete.
  pub quiet_run_is_complete :
      (w : World)
      → validate_pipeline pipeline ≡ ok tt
      → distinct (names pipeline) ≡ true
      → Subset
          (dispatched_in (handle_success pipeline message w).0.store message.run_id)
          (completed_in (handle_success pipeline message w).0.store message.run_id)
      → is_complete pipeline message.family
          (completed_in (handle_success pipeline message w).0.store message.run_id)
        ≡ true
  quiet_run_is_complete w valid apart quiet =
      is_complete_of_no_ready pipeline message.family
        (completed_in (handle_success pipeline message w).0.store message.run_id)
        (dispatched_in (handle_success pipeline message w).0.store message.run_id)
        (order_of_valid pipeline valid) apart quiet (no_ready_after_success w apart)
