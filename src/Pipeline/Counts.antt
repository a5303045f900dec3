-- ===== src/Pipeline/Counts.antt =====
-- What `Executor.ExecutePipeline` of pkg/coordination/pipeline/executor.go writes down of a run.
use quidditch.Common.{
  ℕ, ◌≡◌, refl, sym, ap, String, Bool, some, some-injective, List, ◌>>=◌, >>=-eq-some, lookup,
  lookup-insert_self, arith, add64, if◌then◌else◌, length, quot64,
}
use mathlib.Core.Path.{subst}
use quidditch.Pipeline.Definition.{Any}
use quidditch.Pipeline.Stats.{PipelineStats, StageStats, recorded, next_average, merge_stages}
use quidditch.Pipeline.Registry.{Impl, Registry, updated, update_stats, get, get_stats}
use quidditch.Pipeline.Tallies.{both_steps, found_updates}
use quidditch.Pipeline.Execute.{
  Stage, Result, Clock, Metrics, execute, succeeded, bucket_of, update_metrics, record_run,
  execute_pipeline,
}

-- Statistics after one more run.
pub record Counted (success : Bool) (s s' : PipelineStats) : Type 0 where
  pub total : s'.total ≡ add64 s.total 1
  pub successful : s'.successful ≡ (if success then add64 s.successful 1 else s.successful)
  pub failed : s'.failed ≡ (if success then s.failed else add64 s.failed 1)

update_metrics-counts :
    (now d : ℕ) (ok : Bool) (stages : ℕ) (m m' : Metrics)
    → update_metrics now d ok stages m ≡ some m'
    → (m'.pipelines_executed ≡ add64 m.pipelines_executed 1)
      × (m'.pipelines_failed ≡ (if ok then m.pipelines_failed else add64 m.pipelines_failed 1))
unfolding update_metrics
update_metrics-counts now d ok stages m m' e =
    let (a, b, is) =
      both_steps (quot64 (add64 m.total_duration d) (add64 m.pipelines_executed 1)) (bucket_of d) _
        m' e in
    (sym (ap (λ x. x.pipelines_executed) is), sym (ap (λ x. x.pipelines_failed) is))

module _ {X : Type 0} (p95 p99 : ℕ → ℕ) where
  update_stats-Counted :
      (now : ℕ) (n : String) (d : ℕ) (ok : Bool) (stages : List StageStats)
      (r r' : Registry X (Stage X)) (s : PipelineStats)
      → get_stats n r ≡ some s
      → update_stats p95 p99 now n d ok stages r ≡ some r'
      → (s' : PipelineStats) × (get_stats n r' ≡ some s') × Counted ok s s'
  unfolding get_stats updated
  update_stats-Counted now n d ok stages r r' s at e =
      let (average, merged, is) =
        both_steps (next_average (add64 s.total 1) s.average d) (merge_stages s.stage_stats stages)
          _ r' (found_updates p95 p99 now n d ok stages r r' s at e) in
      let s' = recorded now ok average (p95 average) (p99 average) merged s in
      (
        s',
        subst (λ m. lookup n m ≡ some s') (ap (λ x. x.stats) is) (lookup-insert_self n s' r.stats),
        record { total = refl; successful = refl; failed = refl },
      )

  -- `ExecutePipeline` on a registered pipeline with statistics, when it does not panic, returns what
  -- `Execute` gives, and counts the run once in the statistics and once in the metrics: as a success
  -- when the result is an output, as a failure when it is an error.
  pub execute_pipeline-counts :
      (c : Clock) (n : String) (input : Any X) (r r' : Registry X (Stage X)) (m m' : Metrics)
      (result : Result X) (p : Impl X (Stage X)) (s : PipelineStats)
      → get n r ≡ some p
      → get_stats n r ≡ some s
      → execute_pipeline p95 p99 c n input (r, m) ≡ some (result, (r', m'))
      → (execute c.started c.stage_at p input ≡ some result)
        × ((s' : PipelineStats) × (get_stats n r' ≡ some s') × Counted (succeeded result) s s')
        × (m'.pipelines_executed ≡ add64 m.pipelines_executed 1)
        × (m'.pipelines_failed
            ≡ (if succeeded result then m.pipelines_failed else add64 m.pipelines_failed 1))
  unfolding execute_pipeline record_run
  execute_pipeline-counts c n input r r' m m' result p s at has e =
      let (res, ran, e1) =
        >>=-eq-some (execute c.started c.stage_at p input)
          (λ res. record_run p95 p99 c n p res (r, m)) (result, (r', m')) (found at e) in
      let (m1, metrics, e2) =
        >>=-eq-some (update_metrics c.noted _ (succeeded res) (length p.stages) m) _ _ e1 in
      let (r1, stats, e3) =
        >>=-eq-some (update_stats p95 p99 c.recorded_at n _ (succeeded res) _ r) _ _ e2 in
      let (more, fails) =
        update_metrics-counts c.noted _ (succeeded res) (length p.stages) m m1 metrics in
      subst
        (λ x.
          (execute c.started c.stage_at p input ≡ some x.0)
          × ((s' : PipelineStats) × (get_stats n x.1.0 ≡ some s') × Counted (succeeded x.0) s s')
          × (x.1.1.pipelines_executed ≡ add64 m.pipelines_executed 1)
          × (x.1.1.pipelines_failed
              ≡ (if succeeded x.0 then m.pipelines_failed else add64 m.pipelines_failed 1)))
        (some-injective _ _ e3)
        (
          ran,
          update_stats-Counted c.recorded_at n _ (succeeded res) _ r r1 s has stats,
          more,
          fails,
        )
    where
      found :
          get n r ≡ some p
          → execute_pipeline p95 p99 c n input (r, m) ≡ some (result, (r', m'))
          → (execute c.started c.stage_at p input >>= λ res. record_run p95 p99 c n p res (r, m))
            ≡ some (result, (r', m'))
      found at e = ground arith
