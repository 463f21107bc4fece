-- ===== src/Pipeline/Stages/Validation.antt =====
-- The pipeline that the program ships passes its own checks.
use ragent.Common.{◌≡◌, refl, [], ◌∷◌}
use ragent.Ingest.Formats.{pdf}
use ragent.Pipeline.Stages.{
  pipeline_stages, ok, validate_pipeline, check_stages, check_stage, check_order, check_families,
  check_family, simulate, ready_stages, is_ready, effective_deps, stage_names_for, stages_for,
  applies_to, is_complete, names,
}

validation : Unit {0}
unfolding validate_pipeline check_stages check_stage check_order check_families check_family
    simulate ready_stages is_ready effective_deps stage_names_for stages_for applies_to is_complete
validation = tt

pub validate_pipeline-pipeline_stages : validate_pipeline pipeline_stages ≡ ok tt
unfolding validation
validate_pipeline-pipeline_stages = refl

ready_after_ocr :
    names (ready_stages pipeline_stages pdf ("detect" ∷ "parse" ∷ "ocr" ∷ []) [])
    ≡ "tables" ∷ "figures" ∷ []
unfolding validation
ready_after_ocr = refl
