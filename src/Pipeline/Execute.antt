-- ===== src/Pipeline/Execute.antt =====
-- `PipelineImpl.Execute` and `Executor` of pkg/coordination/pipeline/executor.go. A stage is the
-- interface of the source: its `Execute` is a function of the context and the input. The per-stage
-- statistics that `Execute` collects reach a log line only and are left out. `none` is a panic.
use quidditch.Common.{
  ℕ, suc, String, Bool, true, false, not, Option, none, some, List, [], ◌∷◌, map, Map, lookup,
  insert, if◌then◌else◌, str_eq, ◌⊎◌, inl, inr, add64, sub64, lt64, quot64, mul64, format_int64,
  ◌>>=◌, length,
}
use Prim.Native.String.{◌++◌}
use quidditch.Pipeline.Definition.{
  Any, nil_value, object, StageDefinition, PipelineDefinition, Error, not_found, nil_input,
  wrong_input, unknown_type, bad_input, stage_failed, stage_error,
}
use quidditch.Pipeline.Stats.{StageStats}
use quidditch.Pipeline.Registry.{Impl, Registry, get, update_stats, pipeline_for_index}
use quidditch.Pipeline.Validate.{valid_type}

pub record StageContext (X : Type 0) : Type 0 where
  pub pipeline_name : String
  pub stage_name : String
  pub stage_index : ℕ
  pub total_stages : ℕ
  pub metadata : Map (Any X)
  pub start_time : ℕ
  pub deadline : Option ℕ

pub record Stage (X : Type 0) : Type 0 where
  pub name : String
  pub perform : StageContext X → Any X → String ⊎ Any X

abbrev pub Result : Type 0 → Type 0
Result X = Error ⊎ Any X

-- `context.WithTimeout`: the earlier of the two deadlines.
abbrev pub with_timeout : ℕ → Option ℕ → Option ℕ → Option ℕ
with_timeout now none d = d
with_timeout now (some t) none = some (add64 now t)
with_timeout now (some t) (some d) = if lt64 d (add64 now t) then some d else some (add64 now t)

module _ {X : Type 0} where
  unfoldable pub failure_policy : PipelineDefinition X → StageDefinition X → String
  failure_policy def stage =
      if str_eq stage.on_failure ""
      then (if str_eq def.on_failure "" then "abort" else def.on_failure)
      else stage.on_failure

  abbrev is_object : Any X → Bool
  is_object (object m) = true
  is_object _ = false

  abbrev is_nil : Any X → Bool
  is_nil nil_value = true
  is_nil _ = false

  unfoldable pub validate_input : String → Any X → Option Error
  validate_input t input =
      if is_nil input
      then some nil_input
      else if not (valid_type t)
      then some (unknown_type t)
      else if is_object input
      then none
      else some (wrong_input t)

  -- `stageCtx`, with the stage's own timeout.
  abbrev pub stage_context :
      PipelineDefinition X → StageDefinition X → ℕ → ℕ → ℕ → Option ℕ → StageContext X
  stage_context def stage total i now d = record {
    pipeline_name = def.name;
    stage_name = stage.name;
    stage_index = i;
    total_stages = total;
    metadata = def.metadata;
    start_time = now;
    deadline = with_timeout now stage.timeout d;
  }

  abbrev pub wrapped : PipelineDefinition X → StageDefinition X → ℕ → String ⊎ Any X → Result X
  wrapped def stage i (inl e) = inl (stage_failed def.name stage.name i (stage_error e))
  wrapped def stage i (inr out) = inr out

  unfoldable pub ignores : PipelineDefinition X → StageDefinition X → Bool
  ignores def stage = str_eq (failure_policy def stage) "continue"

  -- A stage's turn: it is skipped unless it is enabled; its output goes on, or its input if its
  -- failure is to be ignored.
  abbrev pub turn : Bool → Bool → Any X → (Any X → Option (Result X)) → Result X → Option (Result X)
  turn false ignore input next r = next input
  turn true ignore input next (inr out) = next out
  turn true true input next (inl e) = next input
  turn true false input next (inl e) = some (inl e)

  -- The loop over the stages from index `i` on; `now i` is the time at which stage `i` starts.
  unfoldable pub run_stages :
      PipelineDefinition X
      → (ℕ → ℕ)
      → ℕ
      → Option ℕ
      → ℕ
      → List (Stage X)
      → List (StageDefinition X)
      → Any X
      → Option (Result X)
  run_stages def now total d i [] stages output = some (inr output)
  run_stages def now total d i (s ∷ ss) [] output = none
  run_stages def now total d i (s ∷ ss) (stage ∷ stages) output =
      turn stage.enabled (ignores def stage) output
        (λ out. run_stages def now total d (suc i) ss stages out)
        (wrapped def stage i (s.perform (stage_context def stage total i (now i) d) output))

  -- `Execute`, started at time `start`.
  unfoldable pub execute : ℕ → (ℕ → ℕ) → Impl X (Stage X) → Any X → Option (Result X)
  execute start now p input =
      if not p.def.enabled then some (inr input) else elim (validate_input p.def.type_name input) [
        | some e ↦ some (inl (bad_input p.def.name e))
        | none ↦
            run_stages p.def now (length p.stages) (with_timeout start p.def.timeout none) 0
              p.stages p.def.stages input
      ]

-- `ExecutorMetrics`
pub record Metrics : Type 0 where
  pub pipelines_executed : ℕ
  pub pipelines_failed : ℕ
  pub total_duration : ℕ
  pub average_duration : ℕ
  pub stages_executed : ℕ
  pub stages_failed : ℕ
  pub last_execution_time : ℕ
  pub histogram : Map ℕ

abbrev bucket_count : Option ℕ → ℕ
bucket_count none = 0
bucket_count (some n) = n

abbrev pub succeeded : {X : Type 0} → Result X → Bool
succeeded (inl e) = false
succeeded (inr out) = true

-- The times that `ExecutePipeline` reads: at the call, when `Execute` starts, when each stage starts,
-- after `Execute`, and for the metrics and the statistics.
pub record Clock : Type 0 where
  pub called : ℕ
  pub started : ℕ
  pub stage_at : ℕ → ℕ
  pub ended : ℕ
  pub noted : ℕ
  pub recorded_at : ℕ

-- The histogram's bucket of a duration, of 10ms.
unfoldable pub bucket_of : ℕ → Option String
unfolding format_int64
bucket_of duration = do
  millis ← quot64 duration 1000000
  tens ← quot64 millis 10
  some (format_int64 (mul64 tens 10) ++ "ms")

-- `updateMetrics` at time `now`.
unfoldable pub update_metrics : ℕ → ℕ → Bool → ℕ → Metrics → Option Metrics
update_metrics now duration success stages m = do
  average ← quot64 (add64 m.total_duration duration) (add64 m.pipelines_executed 1)
  bucket ← bucket_of duration
  some (record m {
    pipelines_executed = add64 m.pipelines_executed 1;
    pipelines_failed = if success then m.pipelines_failed else add64 m.pipelines_failed 1;
    total_duration = add64 m.total_duration duration;
    average_duration = average;
    stages_executed = add64 m.stages_executed stages;
    last_execution_time = now;
    histogram = insert bucket (add64 (bucket_count (lookup bucket m.histogram)) 1) m.histogram;
  })

-- The statistics that a run gives each stage of its pipeline: all of them the run's outcome.
abbrev pub stage_outcome : {X : Type 0} → Bool → Stage X → StageStats
stage_outcome success s = record {
  name = s.name;
  total = 1;
  successful = if success then 1 else 0;
  failed = if success then 0 else 1;
  average = 0;
  last_error = "";
}

-- What `Executor` holds: the registry that it shares, and its metrics.
abbrev pub Held : Type 0 → Type 0
Held X = Registry X (Stage X) × Metrics

module _ {X : Type 0} (scaled_15 scaled_20 : ℕ → ℕ) where
  -- What `ExecutePipeline` writes down of a result.
  unfoldable pub record_run :
      Clock → String → Impl X (Stage X) → Result X → Held X → Option (Result X × Held X)
  record_run c n p result (r, m) = do
    let duration = sub64 c.ended c.called
    m' ← update_metrics c.noted duration (succeeded result) (length p.stages) m
    r' ←
        update_stats scaled_15 scaled_20 c.recorded_at n duration (succeeded result)
          (map (stage_outcome (succeeded result)) p.stages) r
    some (result, (r', m'))

  unfoldable pub execute_pipeline : Clock → String → Any X → Held X → Option (Result X × Held X)
  execute_pipeline c n input held = elim (get n held.0) [
    | none ↦ some (inl (not_found n), held)
    | some p ↦ do result ← execute c.started c.stage_at p input; record_run c n p result held
  ]

  unfoldable pub execute_pipeline_for_index :
      Clock → String → String → Any X → Held X → Option (Result X × Held X)
  execute_pipeline_for_index c ix t input held = found (pipeline_for_index ix t held.0)
    where
      found : Option (Impl X (Stage X)) × Option Error → Option (Result X × Held X)
      found (some p, _) = execute_pipeline c p.def.name input held
      found (none, some e) = some (inl e, held)
      found (none, none) = none
