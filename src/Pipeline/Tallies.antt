-- ===== src/Pipeline/Tallies.antt =====
-- `UpdateStats` of pkg/coordination/pipeline/registry.go and the invariant of the
-- registry.
use mathlib.Core.Path.{subst}
use quidditch.Common.{
  ℕ, ◌≡◌, String, Bool, true, false, Option, none, some, some-injective, List, arith, lookup,
  AllKeys-insert, Option-cases, inl, inr, add64, ◌>>=◌,
}
use quidditch.Pipeline.Stats.{StageStats, recorded, next_average, merge_stages, PipelineStats}
use quidditch.Pipeline.Registry.{Registry, updated, update_stats}
use quidditch.Pipeline.Invariant.{IsTallied, Tallied, IsValid, Counted-insert}

recorded-IsTallied :
    (now : ℕ) (success : Bool) (average p95 p99 : ℕ) (stages : List StageStats) (s : PipelineStats)
    → IsTallied s
    → IsTallied (recorded now success average p95 p99 stages s)
recorded-IsTallied now true average p95 p99 stages s tally = omega (arith, tally)
recorded-IsTallied now false average p95 p99 stages s tally = omega (arith, tally)

pub both_steps :
    {A B C : Type 0} (m : Option A) (n : Option B) (f : A → B → C) (c : C)
    → (m >>= λ a. n >>= λ b. some (f a b)) ≡ some c
    → (a : A) × (b : B) × (f a b ≡ c)
both_steps none n f c e = absurd (cc)
both_steps (some a) none f c e = absurd (cc)
both_steps (some a) (some b) f c e = (a, b, some-injective _ _ e)

module _ {X S : Type 0} where
  pub found_updates :
      (p95 p99 : ℕ → ℕ) (now : ℕ) (n : String) (duration : ℕ) (success : Bool)
      (stages : List StageStats) (r r' : Registry X S) (s : PipelineStats)
      → lookup n r.stats ≡ some s
      → update_stats p95 p99 now n duration success stages r ≡ some r'
      → updated p95 p99 now n duration success stages r s ≡ some r'
  unfolding update_stats
  found_updates p95 p99 now n duration success stages r r' s at e = ground arith

  pub update_stats-IsValid :
      (p95 p99 : ℕ → ℕ) (now : ℕ) (n : String) (duration : ℕ) (success : Bool)
      (stages : List StageStats) (r r' : Registry X S)
      → IsValid r
      → update_stats p95 p99 now n duration success stages r ≡ some r'
      → IsValid r'
  unfolding update_stats updated
  update_stats-IsValid p95 p99 now n duration success stages r r' v e =
      elim (Option-cases (lookup n r.stats)) [
        | inl gone ↦ subst IsValid (some-injective _ _ (ground arith)) v
        | inr (s, at) ↦
            let (average, merged, is) =
              both_steps (next_average (add64 s.total 1) s.average duration)
                (merge_stages s.stage_stats stages) _ r'
                (found_updates p95 p99 now n duration success stages r r' s at e) in
            subst IsValid is (record {
              served = v.served;
              named = v.named;
              tallied =
                  AllKeys-insert Tallied n _ r.stats
                    (
                      (v.tallied n s at).0,
                      recorded-IsTallied now success average (p95 average) (p99 average) merged s
                          (v.tallied n s at).1,
                    )
                    v.tallied;
              counted = λ m impl has. Counted-insert r.stats n _ m impl (v.counted m impl has);
            })
      ]
