-- ===== src/Pipeline/Runner/Handoff.antt =====
-- The messages that follow a finished stage, and the plan that resumes an interrupted run.
use mathlib.Core.List.{Memᴰ}
use ragent.Common.{
  String, ◌≡◌, refl, true, false, List, [], ◌∷◌, ◌++◌, map, filter, contains, distinct, Each,
}
use ragent.Ingest.Formats.{FormatFamily}
use ragent.Pipeline.Stages.{Stage, names, applies_to, is_ready, ready_stages, stages_for}
use ragent.Pipeline.Stages.Lookup.{distinct-names-filter}
use ragent.Pipeline.Stages.Ready.{MayStart, mem-ready_stages_iff}
use ragent.Pipeline.Messages.{StageMessage, for_stage}
use ragent.Pipeline.Runner.{next_messages}

abbrev pub stage_names : List StageMessage → List String
stage_names messages = map (λ (m : StageMessage). m.stage) messages

-- The names of the stages that are ready stand in no other list that the scheduler was given.
ready_names_fresh :
    (pipeline : List Stage) (family : FormatFamily) (completed dispatched : List String)
    → (l : List Stage) → ((s : Stage) → Memᴰ s l → MayStart pipeline family completed dispatched s)
    → Each (λ n. (contains completed n ≡ false) × (contains dispatched n ≡ false)) (names l)
ready_names_fresh pipeline family completed dispatched [] h = tt
ready_names_fresh pipeline family completed dispatched (s ∷ l) h =
    let may = h s (Memᴰ.head refl) in
    (
      (may.unfinished, may.idle),
      ready_names_fresh pipeline family completed dispatched l (λ t m. h t (Memᴰ.tail m)),
    )

pub ready_stages-distinct :
    (pipeline : List Stage) (family : FormatFamily) (completed dispatched : List String)
    → distinct (names pipeline) ≡ true
    → distinct (names (ready_stages pipeline family completed dispatched)) ≡ true
unfolding ready_stages stages_for
ready_stages-distinct pipeline family completed dispatched apart =
    distinct-names-filter (is_ready pipeline family completed (completed ++ dispatched))
      (filter (applies_to family) pipeline)
      (distinct-names-filter (applies_to family) pipeline apart)

pub map-names :
    (message : StageMessage) (l : List Stage)
    → stage_names (map (λ (s : Stage). for_stage s.name message) l) ≡ names l
unfolding for_stage
map-names message [] = refl
map-names message (s ∷ l) = rw (map-names message l)

copies :
    (message : StageMessage) (l : List Stage)
    → Each
        (λ (f : StageMessage). f ≡ record message { stage = f.stage; attempt = 1 })
        (map (λ (s : Stage). for_stage s.name message) l)
unfolding for_stage
copies message [] = tt
copies message (s ∷ l) = (refl, copies message l)

-- The messages after a finished stage: one for each ready stage and in that order, for no stage
-- that has finished or been dispatched, and no two for one stage if the pipeline's stage names
-- are distinct. Each is the finished message with another stage and its attempts back at 1.
pub next_messages_lem :
    (pipeline : List Stage) (message : StageMessage) (completed dispatched : List String)
    → distinct (names pipeline) ≡ true
    → (stage_names (next_messages pipeline message completed dispatched)
        ≡ names (ready_stages pipeline message.family completed dispatched))
      × Each
          (λ n. (contains completed n ≡ false) × (contains dispatched n ≡ false))
          (stage_names (next_messages pipeline message completed dispatched))
      × (distinct (stage_names (next_messages pipeline message completed dispatched)) ≡ true)
      × Each
          (λ (f : StageMessage). f ≡ record message { stage = f.stage; attempt = 1 })
          (next_messages pipeline message completed dispatched)
unfolding next_messages
next_messages_lem pipeline message completed dispatched apart =
    let ready = ready_stages pipeline message.family completed dispatched in
    (
      map-names message ready,
      rw (map-names message ready) (
          ready_names_fresh pipeline message.family completed dispatched ready
            (λ s m. ((mem-ready_stages_iff pipeline message.family completed dispatched s).0 m).1)),
      rw (map-names message ready)
          (ready_stages-distinct pipeline message.family completed dispatched apart),
      copies message ready,
    )
