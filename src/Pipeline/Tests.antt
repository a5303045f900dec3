-- ===== src/Pipeline/Tests.antt =====
-- The theorems on pkg/coordination/pipeline at a pipeline of one stage.
use quidditch.Common.{
  ℕ, ◌≡◌, refl, String, true, none, some, List, [], ◌∷◌, lookup, insert, str_dec, ◌⊎◌, inl, inr,
  add64,
}
use quidditch.Pipeline.Definition.{
  string, object, StageDefinition, PipelineDefinition, Error, stage_error, stage_failed, bad_input,
}
use quidditch.Pipeline.Validate.{
  validate_pipeline, validate_stages, validate_stage, validate_config, validate_python_stage_config,
}
use quidditch.Pipeline.Stats.{
  PipelineStats, new_stats, next_average, merge_stages, recorded, empty_stages,
}
use quidditch.Pipeline.Registry.{
  Impl, Registry, new_registry, register, registered, associate, update_stats, updated, get,
  get_stats,
}
use quidditch.Pipeline.Invariant.{IsValid, new_registry-IsValid}
use quidditch.Pipeline.History.{
  Call, register_call, associate_call, update_stats_call, run, IsResolved, registry_run-IsValid,
  pipeline_for_index-run,
}
use quidditch.Pipeline.Execute.{
  with_timeout, Stage, Clock, Metrics, validate_input, failure_policy, ignores, run_stages, execute,
  execute_pipeline, record_run, update_metrics, bucket_of,
}
use quidditch.Pipeline.Outcomes.{Blames, tolerant_output, execute-tolerant, execute-Blames}
use quidditch.Pipeline.Unstaged.{execute-run}
use quidditch.Pipeline.Counts.{Counted, execute_pipeline-counts}

-- Objects are numbers.
abbrev half : ℕ → ℕ
half d = d

abbrev stage_of : String → StageDefinition ℕ
stage_of policy = record {
  name = "trim";
  type_name = "python";
  config = some (("udf_name", string "trim") ∷ []);
  on_failure = policy;
  timeout = none;
  enabled = true;
}

abbrev pipeline_of : String → ℕ → PipelineDefinition ℕ
pipeline_of policy time = record {
  name = "clean";
  version = "1.0.0";
  type_name = "document";
  description = "";
  stages = stage_of policy ∷ [];
  metadata = [];
  enabled = true;
  on_failure = "";
  timeout = none;
  created = time;
  updated = time;
}

abbrev fails : Stage ℕ
fails = record { name = "trim"; perform = λ c input. inl "no such function" }

abbrev staged : String → Impl ℕ (Stage ℕ)
staged policy = record { def = pipeline_of policy 5; stages = fails ∷ [] }

abbrev bare : Impl ℕ (Stage ℕ)
bare = record { def = pipeline_of "" 5; stages = [] }

abbrev calls : List (Call ℕ)
calls =
    register_call 5 (pipeline_of "" 0)
    ∷ associate_call "goods" "document" "clean"
    ∷ update_stats_call 9 "clean" 100 true []
    ∷ []

abbrev stats_after : PipelineStats
stats_after =
    recorded 9 true 100 100 100 (empty_stages (stage_of "" ∷ []))
      (new_stats "clean" (empty_stages (stage_of "" ∷ [])))

abbrev registry_after : Registry ℕ (Stage ℕ)
registry_after = record {
  pipelines = ("clean", bare) ∷ [];
  index_pipelines = ("goods", ("document", "clean") ∷ []) ∷ [];
  stats = ("clean", stats_after) ∷ [];
}

calls-run : run half half calls new_registry ≡ some registry_after
unfolding register registered associate update_stats updated next_average merge_stages
    validate_pipeline validate_stages validate_stage validate_config validate_python_stage_config
    lookup insert str_dec
calls-run = refl

registry_run-IsValid_example : IsValid registry_after
registry_run-IsValid_example =
    registry_run-IsValid half half calls new_registry registry_after new_registry-IsValid calls-run

pipeline_for_index-run_example : IsResolved half half "goods" "document" registry_after
pipeline_for_index-run_example =
    pipeline_for_index-run half half calls registry_after "goods" "document" calls-run

clean_found : get "clean" registry_after ≡ some bare
unfolding get lookup str_dec
clean_found = refl

execute-run_example :
    (execute 10 half bare (object 3) ≡ some (inr (object 3)))
    ⊎ ((e : Error) × (execute 10 half bare (object 3) ≡ some (inl (bad_input "clean" e))))
execute-run_example =
    execute-run half half calls registry_after "clean" bare 10 half (object 3) calls-run clean_found

document_good : validate_input {X = ℕ} "document" (object 3) ≡ none
unfolding validate_input
document_good = refl

execute-tolerant_example :
    execute 10 half (staged "continue") (object 3)
    ≡ some (
        inr (
          tolerant_output
            (staged "continue").def
            half
            1
            (with_timeout 10 none none)
            0
            (staged "continue").stages
            (staged "continue").def.stages
            (object 3)))
execute-tolerant_example =
    execute-tolerant 10 half (staged "continue") (object 3) refl document_good refl (inl refl, tt)

original_input :
    tolerant_output
      (staged "continue").def
      half
      1
      none
      0
      (staged "continue").stages
      (staged "continue").def.stages
      (object 3)
    ≡ object 3
unfolding tolerant_output
original_input = refl

abort_failed :
    execute 10 half (staged "") (object 3)
    ≡ some (inl (stage_failed "clean" "trim" 0 (stage_error "no such function")))
unfolding execute validate_input run_stages ignores failure_policy
abort_failed = refl

execute-Blames_example :
    Blames
      (pipeline_of "" 5)
      (fails ∷ [])
      (stage_of "" ∷ [])
      "clean"
      "trim"
      0
      (stage_error "no such function")
execute-Blames_example =
    execute-Blames 10 half (staged "") (object 3) "clean" "trim" 0 (stage_error "no such function")
      abort_failed

abbrev clock : Clock
clock = record {
  called = 10;
  started = 10;
  stage_at = half;
  ended = 110;
  noted = 111;
  recorded_at = 112;
}

abbrev no_metrics : Metrics
no_metrics = record {
  pipelines_executed = 0;
  pipelines_failed = 0;
  total_duration = 0;
  average_duration = 0;
  stages_executed = 0;
  stages_failed = 0;
  last_execution_time = 0;
  histogram = [];
}

abbrev stats_later : PipelineStats
stats_later = recorded 112 true 100 100 100 stats_after.stage_stats stats_after

abbrev metrics_later : Metrics
metrics_later = record no_metrics {
  pipelines_executed = 1;
  total_duration = 100;
  average_duration = 100;
  last_execution_time = 111;
  histogram = ("0ms", 1) ∷ [];
}

abbrev registry_later : Registry ℕ (Stage ℕ)
registry_later = record registry_after { stats = ("clean", stats_later) ∷ [] }

ran_once :
    execute_pipeline half half clock "clean" (object 3) (registry_after, no_metrics)
    ≡ some (inr (object 3), (registry_later, metrics_later))
unfolding execute_pipeline record_run get lookup str_dec execute validate_input run_stages
    update_metrics bucket_of update_stats updated next_average merge_stages insert
ran_once = refl

clean_stats : get_stats "clean" registry_after ≡ some stats_after
unfolding get_stats lookup str_dec
clean_stats = refl

execute_pipeline-counts_example :
    (execute 10 half bare (object 3) ≡ some (inr (object 3)))
    × ((s : PipelineStats) × (get_stats "clean" registry_later ≡ some s)
        × Counted true stats_after s)
    × (metrics_later.pipelines_executed ≡ add64 no_metrics.pipelines_executed 1)
    × (metrics_later.pipelines_failed ≡ no_metrics.pipelines_failed)
execute_pipeline-counts_example =
    execute_pipeline-counts half half clock "clean" (object 3) registry_after registry_later
      no_metrics metrics_later (inr (object 3)) bare stats_after clean_found clean_stats ran_once
