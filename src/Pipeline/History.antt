-- ===== src/Pipeline/History.antt =====
-- Calls of the registry of pkg/coordination/pipeline/registry.go one after the other, each under the
-- lock.
use quidditch.Common.{
  ℕ, ◌≡◌, refl, sym, String, Bool, Option, none, some, some-injective, List, [], ◌∷◌, ◌>>=◌,
  >>=-eq-some, lookup, ◌⊎◌, inl, inr, Option-cases,
}
use quidditch.Pipeline.Definition.{PipelineDefinition, no_pipelines, no_pipeline}
use quidditch.Pipeline.Validate.{validate_pipeline}
use quidditch.Pipeline.Stats.{StageStats}
use quidditch.Pipeline.Registry.{
  Impl, Registry, new_registry, register, unregister, associate, disassociate, update_stats, get,
  pipeline_for_index,
}
use quidditch.Pipeline.Invariant.{
  IsValid, new_registry-IsValid, register-IsValid, unregister-IsValid,
}
use quidditch.Pipeline.Associations.{associate-IsValid, disassociate-IsValid}
use quidditch.Pipeline.Tallies.{update_stats-IsValid}
use mathlib.Core.Path.{subst}

pub data Call (X : Type 0) : Type 0 where
  register_call : ℕ → PipelineDefinition X → Call X
  unregister_call : String → Call X
  associate_call : String → String → String → Call X
  disassociate_call : String → String → Call X
  update_stats_call : ℕ → String → ℕ → Bool → List StageStats → Call X

module _ {X S : Type 0} (p95 p99 : ℕ → ℕ) where
  -- `none` is a panic.
  abbrev pub call : Call X → Registry X S → Option (Registry X S)
  call (register_call now def) r = some (register now def r).0
  call (unregister_call n) r = some (unregister n r).0
  call (associate_call ix t n) r = some (associate ix t n r).0
  call (disassociate_call ix t) r = some (disassociate ix t r).0
  call (update_stats_call now n d ok stages) r = update_stats p95 p99 now n d ok stages r

  abbrev pub run : List (Call X) → Registry X S → Option (Registry X S)
  run [] r = some r
  run (c ∷ cs) r = call c r >>= λ r'. run cs r'

  call-IsValid : (c : Call X) (r r' : Registry X S) → IsValid r → call c r ≡ some r' → IsValid r'
  call-IsValid (register_call now def) r r' v e =
      subst IsValid (some-injective _ _ e) (register-IsValid now def r v)
  call-IsValid (unregister_call n) r r' v e =
      subst IsValid (some-injective _ _ e) (unregister-IsValid n r v)
  call-IsValid (associate_call ix t n) r r' v e =
      subst IsValid (some-injective _ _ e) (associate-IsValid ix t n r v)
  call-IsValid (disassociate_call ix t) r r' v e =
      subst IsValid (some-injective _ _ e) (disassociate-IsValid ix t r v)
  call-IsValid (update_stats_call now n d ok stages) r r' v e =
      update_stats-IsValid p95 p99 now n d ok stages r r' v e

  -- Calls on a consistent registry that do not panic leave a consistent one: associations name
  -- registered pipelines of their type, pipelines stand under their names, have passed the validation
  -- and have statistics, and in the statistics successes and failures make up the runs.
  pub registry_run-IsValid :
      (cs : List (Call X)) (r r' : Registry X S) → IsValid r → run cs r ≡ some r' → IsValid r'
  registry_run-IsValid [] r r' v e = subst IsValid (some-injective _ _ e) v
  registry_run-IsValid (c ∷ cs) r r' v e =
      let (r1, did, rest) = >>=-eq-some (call c r) (λ r1. run cs r1) r' e in
      registry_run-IsValid cs r1 r' (call-IsValid c r r1 v did) rest

  -- What `GetPipelineForIndex` may give: a pipeline of the type that was asked for, registered and
  -- validated, or one of the errors that say that nothing is associated.
  abbrev pub IsResolved : String → String → Registry X S → Type 0
  IsResolved ix t r =
      ((impl : Impl X S) × (pipeline_for_index ix t r ≡ (some impl, none))
        × (impl.def.type_name ≡ t)
        × (get impl.def.name r ≡ some impl)
        × (validate_pipeline impl.def ≡ none))
      ⊎ (pipeline_for_index ix t r ≡ (none, some (no_pipelines ix)))
      ⊎ (pipeline_for_index ix t r ≡ (none, some (no_pipeline ix t)))

  resolved : (ix t : String) (r : Registry X S) → IsValid r → IsResolved ix t r
  unfolding pipeline_for_index get
  resolved ix t r v = elim (Option-cases (lookup ix r.index_pipelines)) [
    | inl no_index ↦ inr (inl (rw (no_index, pipeline_for_index) refl))
    | inr (m, at) ↦ elim (Option-cases (lookup t m)) [
      | inl no_entry ↦ inr (inr (rw (at, pipeline_for_index) (rw no_entry refl)))
      | inr (n, has) ↦
          let (impl, is, typed) = v.served ix m at t n has in
          let (own, good) = v.named n impl is in
          inl (
            impl,
            rw (at, pipeline_for_index) (rw has (rw is refl)),
            typed,
            subst (λ k. lookup k r.pipelines ≡ some impl) (sym own) is,
            good,
          )
    ]
  ]

  -- After any calls on a new registry that do not panic, `GetPipelineForIndex` gives a registered
  -- and validated pipeline of the type that was asked for, or the error that nothing is associated;
  -- it never finds the registry in the state that its comment rules out.
  pub pipeline_for_index-run :
      (cs : List (Call X)) (r : Registry X S) (ix t : String)
      → run cs new_registry ≡ some r
      → IsResolved ix t r
  pipeline_for_index-run cs r ix t e =
      resolved ix t r (registry_run-IsValid cs new_registry r new_registry-IsValid e)
