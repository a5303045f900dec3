-- ===== src/Pipeline/Stats.antt =====
-- The statistics of pipelines and stages, pkg/coordination/pipeline/types.go and the parts of
-- `Registry.Register` and `Registry.UpdateStats` of registry.go that fill them. Durations are int64
-- patterns; `none` is the panic of a division by 0.
use quidditch.Common.{
  ℕ, String, Bool, Option, some, List, [], ◌∷◌, if◌then◌else◌, add64, sub64, mul64, quot64, lt64,
  ◌>>=◌, ◌==◌,
}

pub record StageStats : Type 0 where
  pub name : String
  pub total : ℕ
  pub successful : ℕ
  pub failed : ℕ
  pub average : ℕ
  pub last_error : String

pub record PipelineStats : Type 0 where
  pub name : String
  pub total : ℕ
  pub successful : ℕ
  pub failed : ℕ
  pub average : ℕ
  pub p50 : ℕ
  pub p95 : ℕ
  pub p99 : ℕ
  pub last_executed : ℕ
  pub stage_stats : List StageStats

abbrev empty_stage : StageStats
empty_stage = record {
  name = "";
  total = 0;
  successful = 0;
  failed = 0;
  average = 0;
  last_error = "";
}

-- `make([]StageStats, n)`
abbrev pub empty_stages {ℓ} : {A : Type ℓ} → List A → List StageStats
empty_stages [] = []
empty_stages (_ ∷ xs) = empty_stage ∷ empty_stages xs

abbrev pub new_stats : String → List StageStats → PipelineStats
new_stats n stages = record {
  name = n;
  total = 0;
  successful = 0;
  failed = 0;
  average = 0;
  p50 = 0;
  p95 = 0;
  p99 = 0;
  last_executed = 0;
  stage_stats = stages;
}

-- The average after run number `total`.
unfoldable pub next_average : ℕ → ℕ → ℕ → Option ℕ
next_average total average duration =
    if total == 1
    then some duration
    else quot64 (add64 (mul64 average (sub64 total 1)) duration) total

abbrev pub counted_stage : StageStats → StageStats → ℕ → StageStats
counted_stage old new average =
    if lt64 0 new.successful
    then record old {
      name = new.name;
      total = add64 old.total 1;
      successful = add64 old.successful 1;
      average = average;
    }
    else record old {
      name = new.name;
      total = add64 old.total 1;
      failed = add64 old.failed 1;
      last_error = new.last_error;
      average = average;
    }

unfoldable pub merge_stage : StageStats → StageStats → Option StageStats
merge_stage old new = do
  average ← next_average (add64 old.total 1) old.average new.average
  some (counted_stage old new average)

-- The loop over the stage statistics: those past the end are appended.
unfoldable pub merge_stages : List StageStats → List StageStats → Option (List StageStats)
merge_stages [] news = some news
merge_stages (old ∷ olds) [] = some (old ∷ olds)
merge_stages (old ∷ olds) (new ∷ news) = do
  merged ← merge_stage old new
  rest ← merge_stages olds news
  some (merged ∷ rest)

abbrev pub recorded : ℕ → Bool → ℕ → ℕ → ℕ → List StageStats → PipelineStats → PipelineStats
recorded now success mean q95 q99 stages s = record {
  name = s.name;
  total = add64 s.total 1;
  successful = if success then add64 s.successful 1 else s.successful;
  failed = if success then s.failed else add64 s.failed 1;
  average = mean;
  p50 = mean;
  p95 = q95;
  p99 = q99;
  last_executed = now;
  stage_stats = stages;
}
