-- ===== src/Tests/Scheduling.antt =====
-- Messages, the topology, the store and the decisions of the runner.
use ragent.Common.{
  ◌≡◌, refl, true, false, not, ◌&&◌, ◌||◌, some, String, List, [], ◌∷◌, ◌++◌, map, arith, contains,
  distinct, Subset, Each,
}
use ragent.Common.Dict
use ragent.Common.Dict.{Dict}
use ragent.Ingest.Formats.{pdf}
use ragent.Pipeline.Json.{Json, obj, end}
use ragent.Pipeline.Stages
use ragent.Pipeline.Stages.{Stage, names, pipeline_stages, stage_by_name, ready_stages}
use ragent.Pipeline.Messages
use ragent.Pipeline.Messages.{StageMessage, Codec, to_bytes, from_bytes, malformed, missing_fields}
use ragent.Pipeline.Messages.Roundtrip.{from_bytes-to_bytes}
use ragent.Pipeline.Topology.{build_topology, declare, declare_exchange}
use ragent.Pipeline.Topology.Wiring.{declare-build_topology, queue_calls, IsWired, exchange_names}
use ragent.Pipeline.Store.{StageStore, mark_dispatched, begin_stage, complete_stage, fail_stage}
use ragent.Pipeline.Store.Laws.{IsConsistent, store_operations-IsConsistent}
use ragent.Pipeline.Runner.{Failure, other_error, is_permanent, next_messages, resume_plan}
use ragent.Pipeline.Runner.Handoff.{stage_names, next_messages_lem}
use ragent.Pipeline.Runner.Resume.{resume_plan_lem}

-- A wire format that keeps the value itself.
abbrev identity_codec : Codec
identity_codec = record { Bytes = Json; dumps = λ v. v; loads = λ v. some v }

abbrev pub finished_ocr : StageMessage
finished_ocr = record {
  document_id = "d1";
  run_id = "r1";
  stage = "ocr";
  family = pdf;
  pipeline_version = "v1";
  tenant_id = "default";
  attempt = 2;
  trace_id = "t1";
  meta = end;
}

from_bytes-to_bytes_example :
    from_bytes (λ v. "") identity_codec "fresh" (to_bytes (λ v. "") identity_codec finished_ocr)
    ≡ Messages.ok finished_ocr
from_bytes-to_bytes_example =
    from_bytes-to_bytes (λ v. "") "fresh" identity_codec finished_ocr (omega arith) refl refl

no_fields :
    from_bytes (λ v. "") identity_codec "fresh" (obj end)
    ≡ malformed
        (missing_fields ("document_id" ∷ "run_id" ∷ "stage" ∷ "family" ∷ "pipeline_version" ∷ []))
unfolding from_bytes
no_fields = refl

declare-build_topology_example :
    (declare (build_topology pipeline_stages (5_000 ∷ []))
      ≡ some (
          map declare_exchange (build_topology pipeline_stages (5_000 ∷ [])).exchanges
          ++ queue_calls (build_topology pipeline_stages (5_000 ∷ [])).queues))
    × Each
        (IsWired (exchange_names (build_topology pipeline_stages (5_000 ∷ [])).exchanges))
        (build_topology pipeline_stages (5_000 ∷ [])).queues
declare-build_topology_example = declare-build_topology pipeline_stages (5_000 ∷ [])

abbrev pub one_run : StageStore String
one_run = record {
  completed = [];
  dispatched = ("r1", "ocr" ∷ []) ∷ [];
  errors = [];
  attempts = [];
}

one_run-IsConsistent : IsConsistent one_run
unfolding Dict.get_or
one_run-IsConsistent = record { at = λ r n m. cc }

store_operations-IsConsistent_example :
    IsConsistent (mark_dispatched "r1" ("tables" ∷ []) one_run)
    × IsConsistent (begin_stage "r1" "ocr" 1 one_run)
    × IsConsistent (complete_stage "r1" "ocr" one_run).1
    × IsConsistent (fail_stage "r1" "ocr" "timeout" true one_run)
store_operations-IsConsistent_example =
    store_operations-IsConsistent one_run "r1" "ocr" ("tables" ∷ []) 1 "timeout" true
      one_run-IsConsistent

abbrev pub timeout : Failure
timeout = other_error "TimeoutError" "no answer"

abbrev pub ocr : Stage
ocr = record {
  name = "ocr";
  pool = Stages.parse;
  families = Stages.paged;
  depends_on = "parse" ∷ [];
  max_attempts = 3;
  prefetch = 1;
}

ocr_found : stage_by_name pipeline_stages "ocr" ≡ some ocr
unfolding stage_by_name
ocr_found = refl

transient : is_permanent timeout ≡ false
unfolding is_permanent
transient = refl

abbrev before_tables : List String
before_tables = "detect" ∷ "parse" ∷ "ocr" ∷ []

next_messages_lem_example :
    (stage_names (next_messages pipeline_stages finished_ocr before_tables before_tables)
      ≡ names (ready_stages pipeline_stages pdf before_tables before_tables))
    × Each
        (λ n. (contains before_tables n ≡ false) × (contains before_tables n ≡ false))
        (stage_names (next_messages pipeline_stages finished_ocr before_tables before_tables))
    × (distinct
          (stage_names (next_messages pipeline_stages finished_ocr before_tables before_tables))
        ≡ true)
    × Each
        (λ (f : StageMessage). f ≡ record finished_ocr { stage = f.stage; attempt = 1 })
        (next_messages pipeline_stages finished_ocr before_tables before_tables)
next_messages_lem_example =
    next_messages_lem pipeline_stages finished_ocr before_tables before_tables refl

tables_running_known : Subset ("tables" ∷ []) (names pipeline_stages)
tables_running_known n m = ground (arith)

resume_plan_lem_example :
    (plan : List Stage) × (resume_plan pipeline_stages (λ ns. ns) pdf before_tables ("tables" ∷ [])
      ≡ some plan)
    × ((n : String)
        → contains (names plan) n ≡ (
            contains ("tables" ∷ []) n && not (contains before_tables n)
            || contains (names (ready_stages pipeline_stages pdf before_tables ("tables" ∷ []))) n))
resume_plan_lem_example =
    resume_plan_lem pipeline_stages (λ ns. ns) pdf before_tables ("tables" ∷ []) (λ ns n. refl)
      tables_running_known
