-- ===== src/Tests/Stages.antt =====
-- The stage graph and its validation, on the pipeline that the program ships.
use mathlib.Core.List.{Memᴰ}
use ragent.Common.{
  ◌+◌, ◌≡◌, ◌↔◌, refl, true, false, some, String, List, [], ◌∷◌, length, is_empty, contains,
}
use ragent.Ingest.Formats.{flow, pdf}
use ragent.Pipeline.Stages.{
  Stage, enrich, parse, paged, pipeline_stages, ok, names, ready_stages, is_complete, simulate,
  retry_delay_ms, stage_names_for, stages_for, applies_to, is_ready, effective_deps,
}
use ragent.Pipeline.Stages.Validation.{validate_pipeline-pipeline_stages}
use ragent.Pipeline.Stages.Progress.{no_deadlock, order_of_valid}
use ragent.Pipeline.Stages.Simulation.{simulate_completes}
use ragent.Pipeline.Stages.Ready.{MayStart, mem-ready_stages_iff}

abbrev after_detect : List String
after_detect = "detect" ∷ []

abbrev figures : Stage
figures = record {
  name = "figures";
  pool = enrich;
  families = [];
  depends_on = [];
  max_attempts = 4;
  prefetch = 4;
}

stage_graph : Unit {0}
unfolding is_complete ready_stages is_ready effective_deps stage_names_for stages_for applies_to
    retry_delay_ms
stage_graph = tt

flow_unfinished : is_complete pipeline_stages flow after_detect ≡ false
unfolding stage_graph
flow_unfinished = refl

flow_ready : names (ready_stages pipeline_stages flow after_detect after_detect) ≡ "parse_flow" ∷ []
unfolding stage_graph
flow_ready = refl

second_delay : retry_delay_ms figures 2 ≡ ok (some 30000)
unfolding stage_graph
second_delay = refl

third_delay : retry_delay_ms figures 3 ≡ ok (some 300000)
unfolding stage_graph
third_delay = refl

no_deadlock_example : is_empty (ready_stages pipeline_stages flow after_detect after_detect) ≡ false
no_deadlock_example =
    no_deadlock pipeline_stages flow after_detect after_detect validate_pipeline-pipeline_stages
      refl (λ n m. m) flow_unfinished

simulate_completes_example :
    (r : List String) × (simulate pipeline_stages (length pipeline_stages + 1) flow after_detect
      ≡ some r)
    × (is_complete pipeline_stages flow r ≡ true)
simulate_completes_example =
    simulate_completes pipeline_stages flow after_detect
      (order_of_valid pipeline_stages validate_pipeline-pipeline_stages) refl

-- A PDF is parsed once its format is detected: no PDF is converted, so that "convert" is not waited
-- for.
abbrev parse_stage : Stage
parse_stage = record {
  name = "parse";
  pool = parse;
  families = paged;
  depends_on = "detect" ∷ "convert" ∷ [];
  max_attempts = 3;
  prefetch = 2;
}

parse_is_ready :
    contains (names (ready_stages pipeline_stages pdf after_detect after_detect)) "parse" ≡ true
unfolding stage_graph
parse_is_ready = refl

mem-ready_stages_iff_example :
    Memᴰ parse_stage (ready_stages pipeline_stages pdf after_detect after_detect) ↔ (
      Memᴰ parse_stage pipeline_stages
      × MayStart pipeline_stages pdf after_detect after_detect parse_stage)
mem-ready_stages_iff_example =
    mem-ready_stages_iff pipeline_stages pdf after_detect after_detect parse_stage

parse_stage_is_listed : Memᴰ parse_stage pipeline_stages
parse_stage_is_listed = Memᴰ.tail (Memᴰ.tail (Memᴰ.head refl))
