-- ===== src/Tests/Workers.antt =====
-- Deliveries to a worker.
use ragent.Common.{
  ◌≡◌, refl, true, ◌&&◌, ◌||◌, some, none, String, [], ◌∷◌, ◌++◌, map, arith, contains, distinct,
  Subset, str_eq,
}
use ragent.Common.Dict
use ragent.Common.Dict.{Dict}
use ragent.Ingest.Formats.{pdf, family_of}
use ragent.Pipeline.Json.{Json, obj, end}
use ragent.Pipeline.Stages.{
  names, pipeline_stages, stage_by_name, is_complete, ready_stages, is_ready, effective_deps,
  stage_names_for, stages_for, applies_to, routing_key, retry_delay_ms,
}
use ragent.Pipeline.Stages.Validation.{validate_pipeline-pipeline_stages}
use ragent.Pipeline.Messages.{StageMessage, Codec, from_bytes, for_stage, retried, payload}
use ragent.Pipeline.Topology.{retry_exchange_name}
use ragent.Pipeline.Store.{complete_stage, mark_dispatched, begin_stage, fail_stage, snapshot}
use ragent.Pipeline.Store.Laws.{is_completed, is_dispatched}
use ragent.Pipeline.Runner.{Failure, other_error, plan_failure, is_permanent, next_messages}
use ragent.Pipeline.Handlers.{get_handler}
use ragent.Workers.Consumer.{
  World, acked, rejected, Handler, raised, returned, on_decoded, on_message, settle, handle_success,
  handle_failure, publish, publish_all, dead_letter_message, reported_family, adopt_family,
}
use ragent.Workers.Consumer.Outcomes.{follower, newly_ready}
use ragent.Workers.Consumer.Successes.{
  handle_success_lem, quiet_run_is_complete, completed_in, dispatched_in,
}
use ragent.Workers.Consumer.Accounting.{Accounted, acked_is_Accounted, unknown_stage_is_rejected}
use ragent.Workers.Consumer.Once.{queued}
use ragent.Workers.Consumer.Deliveries.{start, deliver, no_stage_starts_twice}

abbrev message : String → StageMessage
message stage = record {
  document_id = "d1";
  run_id = "r1";
  stage = stage;
  family = pdf;
  pipeline_version = "v1";
  tenant_id = "default";
  attempt = 1;
  trace_id = "t1";
  meta = end;
}

abbrev empty : World
empty = record {
  store = record { completed = []; dispatched = []; errors = []; attempts = [] };
  published = [];
}

abbrev failing : Dict Handler
failing = ("ocr", λ m. raised (other_error "TimeoutError" "no answer")) ∷ []

abbrev working : Dict Handler
working = ("ocr", λ m. returned none) ∷ []

-- Everything that a delivery runs.
delivery : Unit {0}
unfolding on_message on_decoded settle handle_success handle_failure publish publish_all
    dead_letter_message reported_family adopt_family get_handler Dict.get? Dict.get_or Dict.put
    begin_stage complete_stage fail_stage mark_dispatched plan_failure is_permanent next_messages
    stage_by_name routing_key retry_delay_ms ready_stages is_ready effective_deps stage_names_for
    stages_for applies_to is_complete for_stage retried retry_exchange_name family_of from_bytes
    snapshot
delivery = tt

failing_acked : (on_decoded pipeline_stages failing (message "ocr") empty).1 ≡ acked
unfolding delivery
failing_acked = refl

acked_is_Accounted_example :
    Accounted pipeline_stages
      (message "ocr")
      empty
      (on_decoded pipeline_stages failing (message "ocr") empty).0
acked_is_Accounted_example =
    acked_is_Accounted pipeline_stages refl failing (message "ocr") empty failing_acked

nobody : stage_by_name pipeline_stages "translate" ≡ none
unfolding delivery
nobody = refl

unknown_stage_is_rejected_example :
    ((get_handler "translate" working ≡ none)
      → on_decoded pipeline_stages working (message "translate") empty ≡ (empty, rejected))
    × ((exc : Failure)
        → ((handle_failure pipeline_stages (message "translate") exc empty).1 ≡ rejected)
          × ((handle_failure pipeline_stages (message "translate") exc empty).0.published
              ≡ empty.published))
unknown_stage_is_rejected_example =
    unknown_stage_is_rejected pipeline_stages working (message "translate") empty nobody

-- Everything before the last stage has run.
abbrev before_embed : World
before_embed = record {
  store = record {
    completed =
        ("r1", "contextualize" ∷ "chunk" ∷ "figures" ∷ "tables" ∷ "ocr" ∷ "parse" ∷ "detect" ∷ [])
        ∷ [];
    dispatched =
        (
          "r1",
          "embed" ∷ "contextualize" ∷ "chunk" ∷ "figures" ∷ "tables" ∷ "ocr" ∷ "parse" ∷ "detect"
              ∷ [],
        )
        ∷ [];
    errors = [];
    attempts = [];
  };
  published = [];
}

handle_success_lem_example :
    ((handle_success pipeline_stages (message "embed") before_embed).1 ≡ acked)
    × ((handle_success pipeline_stages (message "embed") before_embed).0.published
        ≡ before_embed.published
          ++ map
              (follower (message "embed"))
              (newly_ready pipeline_stages (message "embed") before_embed.store))
    × ((r n : String)
        → is_completed (handle_success pipeline_stages (message "embed") before_embed).0.store r n
          ≡ (str_eq "r1" r && str_eq "embed" n || is_completed before_embed.store r n))
    × ((r n : String)
        → is_dispatched (handle_success pipeline_stages (message "embed") before_embed).0.store r n
          ≡ (str_eq "r1" r
                && (contains
                      (names (newly_ready pipeline_stages (message "embed") before_embed.store))
                      n
                    || str_eq "embed" n)
              || is_dispatched before_embed.store r n))
handle_success_lem_example = handle_success_lem pipeline_stages (message "embed") before_embed refl

all_finished :
    Subset
      (dispatched_in (handle_success pipeline_stages (message "embed") before_embed).0.store "r1")
      (completed_in (handle_success pipeline_stages (message "embed") before_embed).0.store "r1")
unfolding delivery
all_finished n m = ground arith

quiet_run_is_complete_example :
    is_complete pipeline_stages pdf
      (completed_in (handle_success pipeline_stages (message "embed") before_embed).0.store "r1")
    ≡ true
quiet_run_is_complete_example =
    quiet_run_is_complete pipeline_stages (message "embed") before_embed
      validate_pipeline-pipeline_stages refl all_finished

abbrev wire : Codec
wire = record { Bytes = Json; dumps = λ v. v; loads = λ v. some v }

abbrev twice : World
twice =
    (on_message pipeline_stages (λ v. "") wire "t2" working (obj (payload (message "ocr")))
      (on_message pipeline_stages (λ v. "") wire "t2" working (obj (payload (message "ocr")))
        empty).0).0

-- The same message is delivered twice.
no_stage_starts_twice_example :
    (distinct (queued "r1" twice.published) ≡ true)
    × ((n : String)
        → contains (queued "r1" twice.published) n ≡ true
        → is_dispatched twice.store "r1" n ≡ true)
    × ((n : String)
        → is_completed twice.store "r1" n ≡ true
        → is_dispatched twice.store "r1" n ≡ true)
no_stage_starts_twice_example =
    no_stage_starts_twice pipeline_stages refl (λ v. "") wire
      (deliver "t2" working (obj (payload (message "ocr")))
        (deliver "t2" working (obj (payload (message "ocr"))) start))
      "r1"
