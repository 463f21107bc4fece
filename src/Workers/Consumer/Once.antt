-- ===== src/Workers/Consumer/Once.antt =====
-- Over any deliveries, in any order and repeated at will, no stage of a run is queued twice.
use mathlib.Core.List.{append-nil}
use ragent.Common.{
  ℕ, String, ◌≡◌, refl, inl, inr, Bool, true, false, List, [], ◌∷◌, ◌++◌, map, arith, contains,
  distinct, str_eq, eq_iff, Bool-cases, Option-cases, if◌then◌else◌, contains-append,
}
use ragent.Pipeline.Stages
use ragent.Pipeline.Stages.{Stage, names, stage_by_name, ready_stages}
use ragent.Pipeline.Messages.{StageMessage}
use ragent.Pipeline.Store.{begin_stage, fail_stage}
use ragent.Pipeline.Store.Laws.{
  is_completed, is_dispatched, is_dispatched-begin_stage, is_dispatched-fail_stage,
  completed-begin_stage, completed-fail_stage,
}
use ragent.Pipeline.Runner.{Failure, Action, retry, dead_letter, plan_failure, DeathReason}
use ragent.Workers.Consumer.{
  Publication, Headers, plain, retry_headers, death_headers, World, StoredError, ack_if, publish,
  dead_letter_message, handle_failure, last_error, death,
}
use ragent.Workers.Consumer.Outcomes.{follower, sent, publish-known}

-- Whether a publication starts a stage of the run, rather than retries or buries one.
abbrev pub starts : String → Publication → Bool
starts run_id p = elim p.headers [ plain ↦ str_eq p.body.run_id run_id | _ ↦ false ]

-- The stages of a run that were published to start, in order.
abbrev pub queued : String → List Publication → List String
queued run_id [] = []
queued run_id (p ∷ ps) =
    if starts run_id p then p.body.stage ∷ queued run_id ps else queued run_id ps

pub queued-append :
    (run_id : String) (ps qs : List Publication)
    → queued run_id (ps ++ qs) ≡ queued run_id ps ++ queued run_id qs
queued-append run_id [] qs = refl
queued-append run_id (p ∷ ps) qs = elim (Bool-cases (starts run_id p)) [
  | inl e ↦ rw (e, queued-append run_id ps qs)
  | inr e ↦ rw (e, queued-append run_id ps qs)
]

pub queued-followers :
    (run_id : String) (m : StageMessage) (l : List Stage)
    → queued run_id (map (follower m) l) ≡ (if str_eq m.run_id run_id then names l else [])
queued-followers run_id m [] = ground arith
queued-followers run_id m (s ∷ l) = elim (Bool-cases (str_eq m.run_id run_id)) [
  | inl e ↦ rw (e, queued-followers run_id m l, e)
  | inr e ↦ rw (e, queued-followers run_id m l, e)
]

pub distinct-append :
    (xs ys : List String)
    → distinct xs ≡ true
    → distinct ys ≡ true
    → ((n : String) → contains ys n ≡ true → contains xs n ≡ false)
    → distinct (xs ++ ys) ≡ true
distinct-append [] ys hx hy apart = hy
distinct-append (x ∷ xs) ys hx hy apart = ground (
  arith,
  contains-append xs ys x,
  apart x,
  eq_iff x x,
  distinct-append xs ys (ground arith) hy (λ n m. ground (arith, apart n m)),
)

-- Each stage is queued at most once for each run, only if it is dispatched, and what has succeeded
-- is dispatched.
pub record IsTidy (w : World) : Type 0 where
  pub once : (run_id : String) → distinct (queued run_id w.published) ≡ true
  pub known :
      (run_id n : String)
      → contains (queued run_id w.published) n ≡ true
      → is_dispatched w.store run_id n ≡ true
  pub sound :
      (run_id n : String)
      → is_completed w.store run_id n ≡ true
      → is_dispatched w.store run_id n ≡ true

pub IsTidy-begin_stage :
    (w : World) (run_id stage : String) (attempt : ℕ)
    → IsTidy w
    → IsTidy (record w { store = begin_stage run_id stage attempt w.store })
IsTidy-begin_stage w run_id stage attempt h = record {
  once = h.once;
  known = λ r n m.
      ground (arith, is_dispatched-begin_stage w.store run_id stage attempt r n, h.known r n m);
  sound = λ r n. rw completed-begin_stage (λ m.
      ground (arith, is_dispatched-begin_stage w.store run_id stage attempt r n, h.sound r n m));
}

IsTidy-fail_stage :
    (w : World) (run_id stage : String) (e : StoredError) (p : Bool)
    → IsTidy w
    → IsTidy (record w { store = fail_stage run_id stage e p w.store })
IsTidy-fail_stage w run_id stage e p h = record {
  once = h.once;
  known =
      λ r n m. ground (arith, is_dispatched-fail_stage w.store run_id stage e p r n, h.known r n m);
  sound = λ r n.
      rw completed-fail_stage
        (λ m. ground (arith, is_dispatched-fail_stage w.store run_id stage e p r n, h.sound r n m));
}

-- A publication that starts nothing.
IsTidy-publish_other :
    (w : World) (p : Publication)
    → ((r : String) → starts r p ≡ false)
    → IsTidy w
    → IsTidy (record w { published = w.published ++ p ∷ [] })
IsTidy-publish_other w p other h = record {
  once = λ r. rw (same r) (h.once r);
  known = λ r n. rw (same r) (h.known r n);
  sound = h.sound;
}
  where
    same : (r : String) → queued r (w.published ++ p ∷ []) ≡ queued r w.published
    same r = rw (queued-append r w.published (p ∷ []), other r) (append-nil (queued r w.published))

module _ (pipeline : List Stage) where
  IsTidy-publish :
      (exchange : String) (m : StageMessage) (headers : Headers) (w : World)
      → ((r : String) (p : Publication) → p.headers ≡ headers → starts r p ≡ false)
      → IsTidy w
      → IsTidy (publish pipeline exchange m headers w).0
  unfolding publish
  IsTidy-publish exchange m headers w other h =
      elim (Option-cases (stage_by_name pipeline m.stage)) [
        | inl e ↦ rw (e, publish) h
        | inr (s, e) ↦
            let p = sent exchange m headers s in
            rw (publish-known pipeline exchange m headers w e)
              (IsTidy-publish_other w p (λ r. other r p refl) h)
      ]

  pub ack_if-world : (x : World × Bool) → (ack_if x).0 ≡ x.0
  ack_if-world (w, true) = refl
  ack_if-world (w, false) = refl

  pub IsTidy-dead_letter :
      (m : StageMessage) (reason : DeathReason) (w : World)
      → IsTidy w
      → IsTidy (ack_if (dead_letter_message pipeline m reason w)).0
  unfolding dead_letter_message
  IsTidy-dead_letter m reason w h =
      rw ack_if-world (IsTidy-publish _ m (death_headers reason) w (λ r p e. ground arith) h)

  pub IsTidy-handle_failure :
      (m : StageMessage) (exc : Failure) (w : World)
      → IsTidy w
      → IsTidy (handle_failure pipeline m exc w).0
  unfolding handle_failure
  IsTidy-handle_failure m exc w h = go (plan_failure pipeline m exc) refl
    where
      go :
          (a : Stages.Result Action)
          → plan_failure pipeline m exc ≡ a
          → IsTidy (handle_failure pipeline m exc w).0
      go (Stages.err e) q = rw (q, handle_failure) h
      go (Stages.ok (retry ms exchange attempt)) q =
          rw (q, handle_failure, ack_if-world)
            (IsTidy-publish exchange _ (retry_headers attempt exc) _ (λ r p e. ground arith)
              (IsTidy-fail_stage w m.run_id m.stage (last_error exc) false h))
      go (Stages.ok (dead_letter reason)) q =
          rw (q, handle_failure)
            (IsTidy-dead_letter m reason _
              (IsTidy-fail_stage w m.run_id m.stage (death reason) true h))
