-- ===== src/Pipeline/Unstaged.antt =====
-- A registry that only its own methods write, pkg/coordination/pipeline/registry.go, and the runs of
-- its pipelines, pkg/coordination/pipeline/executor.go.
use quidditch.Common.{
  ℕ, ◌≡◌, refl, sym, ap, String, Bool, some, some-injective, List, [], ◌∷◌, >>=-eq-some, lookup,
  AllKeys, AllKeys-insert, AllKeys-delete, AllKeys-nil, ◌⊎◌, inl, inr, Option-cases, Bool-cases,
  arith, add64,
}
use mathlib.Core.Path.{subst}
use quidditch.Pipeline.Definition.{Any, PipelineDefinition, Error, bad_input}
use quidditch.Pipeline.Validate.{validate_pipeline}
use quidditch.Pipeline.Stats.{StageStats, next_average, merge_stages}
use quidditch.Pipeline.Registry.{
  Impl, Registry, new_registry, registered, register, unregister, associate, disassociate, updated,
  update_stats, user_of, get,
}
use quidditch.Pipeline.Tallies.{both_steps, found_updates}
use quidditch.Pipeline.History.{
  Call, register_call, unregister_call, associate_call, disassociate_call, update_stats_call, call,
  run,
}
use quidditch.Pipeline.Execute.{Stage, validate_input, run_stages, execute}

module _ {X : Type 0} where
  abbrev HasNoStage : String → Impl X (Stage X) → Type 0
  HasNoStage n p = p.stages ≡ []

  abbrev Unstaged : Registry X (Stage X) → Type 0
  Unstaged r = AllKeys HasNoStage r.pipelines

  register-Unstaged :
      (now : ℕ) (def : PipelineDefinition X) (r : Registry X (Stage X))
      → Unstaged r
      → Unstaged (register now def r).0
  unfolding register registered
  register-Unstaged now def r u = elim (Option-cases (validate_pipeline def)) [
    | inr (e, bad) ↦ rw (bad, register) u
    | inl good ↦ elim (Option-cases (lookup def.name r.pipelines)) [
      | inr (p, is) ↦ rw (good, register) (rw is u)
      | inl free ↦
          rw (good, register) (rw free (AllKeys-insert HasNoStage def.name _ r.pipelines refl u))
    ]
  ]

  unregister-Unstaged :
      (n : String) (r : Registry X (Stage X)) → Unstaged r → Unstaged (unregister n r).0
  unfolding unregister
  unregister-Unstaged n r u = elim (Option-cases (lookup n r.pipelines)) [
    | inl gone ↦ rw (gone, unregister) u
    | inr (p, is) ↦ elim (Option-cases (user_of n r.index_pipelines)) [
      | inr (user, used) ↦ rw (is, unregister) (rw used u)
      | inl unused ↦ rw (is, unregister) (rw unused (AllKeys-delete HasNoStage n r.pipelines u))
    ]
  ]

  associate-pipelines :
      (ix t n : String) (r : Registry X (Stage X)) → (associate ix t n r).0.pipelines ≡ r.pipelines
  unfolding associate
  associate-pipelines ix t n r = elim (Option-cases (lookup n r.pipelines)) [
    | inl gone ↦ ground arith
    | inr (p, is) ↦ ground arith
  ]

  disassociate-pipelines :
      (ix t : String) (r : Registry X (Stage X)) → (disassociate ix t r).0.pipelines ≡ r.pipelines
  unfolding disassociate
  disassociate-pipelines ix t r = elim (Option-cases (lookup ix r.index_pipelines)) [
    | inl gone ↦ ground arith
    | inr (m, is) ↦ elim (Option-cases (lookup t m)) [
      | inl none_here ↦ ground arith
      | inr (n, has) ↦ ground arith
    ]
  ]

  update_stats-pipelines :
      (p95 p99 : ℕ → ℕ) (now : ℕ) (n : String) (d : ℕ) (ok : Bool) (stages : List StageStats)
      (r r' : Registry X (Stage X))
      → update_stats p95 p99 now n d ok stages r ≡ some r'
      → r.pipelines ≡ r'.pipelines
  unfolding update_stats updated
  update_stats-pipelines p95 p99 now n d ok stages r r' e = elim (Option-cases (lookup n r.stats)) [
    | inl gone ↦
        let same : some r ≡ some r' = ground arith in
        ap (λ x. x.pipelines) (some-injective _ _ same)
    | inr (s, at) ↦
        let (average, merged, is) =
          both_steps (next_average (add64 s.total 1) s.average d)
            (merge_stages s.stage_stats stages) _ r'
            (found_updates p95 p99 now n d ok stages r r' s at e) in
        ap (λ x. x.pipelines) is
  ]

  call-Unstaged :
      (p95 p99 : ℕ → ℕ) (c : Call X) (r r' : Registry X (Stage X))
      → Unstaged r
      → call p95 p99 c r ≡ some r'
      → Unstaged r'
  call-Unstaged p95 p99 (register_call now def) r r' u e =
      subst Unstaged (some-injective _ _ e) (register-Unstaged now def r u)
  call-Unstaged p95 p99 (unregister_call n) r r' u e =
      subst Unstaged (some-injective _ _ e) (unregister-Unstaged n r u)
  call-Unstaged p95 p99 (associate_call ix t n) r r' u e =
      subst Unstaged (some-injective _ _ e)
        (subst (λ m. AllKeys HasNoStage m) (sym (associate-pipelines ix t n r)) u)
  call-Unstaged p95 p99 (disassociate_call ix t) r r' u e =
      subst Unstaged (some-injective _ _ e)
        (subst (λ m. AllKeys HasNoStage m) (sym (disassociate-pipelines ix t r)) u)
  call-Unstaged p95 p99 (update_stats_call now n d ok stages) r r' u e =
      subst (λ m. AllKeys HasNoStage m) (update_stats-pipelines p95 p99 now n d ok stages r r' e) u

  run-Unstaged :
      (p95 p99 : ℕ → ℕ) (cs : List (Call X)) (r r' : Registry X (Stage X))
      → Unstaged r
      → run p95 p99 cs r ≡ some r'
      → Unstaged r'
  run-Unstaged p95 p99 [] r r' u e = subst Unstaged (some-injective _ _ e) u
  run-Unstaged p95 p99 (c ∷ cs) r r' u e =
      let (r1, did, rest) = >>=-eq-some (call p95 p99 c r) (λ r1. run p95 p99 cs r1) r' e in
      run-Unstaged p95 p99 cs r1 r' (call-Unstaged p95 p99 c r r1 u did) rest

  unstaged-execute :
      (start : ℕ) (now : ℕ → ℕ) (p : Impl X (Stage X)) (input : Any X)
      → p.stages ≡ []
      → (execute start now p input ≡ some (inr input))
        ⊎ ((e : Error) × (execute start now p input ≡ some (inl (bad_input p.def.name e))))
  unfolding execute run_stages
  unstaged-execute start now p input none_there = elim (Bool-cases p.def.enabled) [
    | inr off ↦ inl (ground arith)
    | inl on ↦ elim (Option-cases (validate_input p.def.type_name input)) [
      | inr (e, bad) ↦ inr (e, ground arith)
      | inl good ↦ inl (ground arith)
    ]
  ]

  -- In a registry that was only written by its own methods, running a pipeline gives its input back,
  -- or refuses it for its type: `Register` stores no stages, and none of the methods adds any.
  pub execute-run :
      (p95 p99 : ℕ → ℕ) (cs : List (Call X)) (r : Registry X (Stage X)) (n : String)
      (p : Impl X (Stage X)) (start : ℕ) (now : ℕ → ℕ) (input : Any X)
      → run p95 p99 cs new_registry ≡ some r
      → get n r ≡ some p
      → (execute start now p input ≡ some (inr input))
        ⊎ ((e : Error) × (execute start now p input ≡ some (inl (bad_input p.def.name e))))
  unfolding get
  execute-run p95 p99 cs r n p start now input e at =
      unstaged-execute start now p input
        (run-Unstaged p95 p99 cs new_registry r (AllKeys-nil HasNoStage) e n p at)
