-- ===== src/Pipeline/Outcomes.antt =====
-- How the runs of pkg/coordination/pipeline/executor.go end.
use quidditch.Common.{
  ℕ, suc, ◌+◌, ◌≡◌, refl, sym, ◌∙◌, String, Bool, true, false, Option, none, some, some-injective,
  List, [], ◌∷◌, arith, ◌⊎◌, inl, inr, length, get_elem?, All, Bool-cases, Option-cases,
}
use mathlib.Core.Path.{subst}
use quidditch.Pipeline.Definition.{
  Any, StageDefinition, PipelineDefinition, Error, stage_failed, stage_error,
}
use quidditch.Pipeline.Registry.{Impl}
use quidditch.Pipeline.Execute.{
  Stage, StageContext, Result, with_timeout, failure_policy, stage_context, ignores, turn,
  validate_input, wrapped, run_stages, execute,
}

module _ {X : Type 0} where
  -- The policy of the stage is to continue, or it has none and the pipeline's is to continue.
  abbrev pub IsTolerant : PipelineDefinition X → StageDefinition X → Type 0
  IsTolerant def stage =
      (stage.on_failure ≡ "continue") ⊎ ((stage.on_failure ≡ "") × (def.on_failure ≡ "continue"))

  tolerant-ignores :
      (def : PipelineDefinition X) (stage : StageDefinition X)
      → IsTolerant def stage
      → ignores def stage ≡ true
  unfolding ignores failure_policy
  tolerant-ignores def stage (inl own) = rw own refl
  tolerant-ignores def stage (inr (silent, whole)) = rw silent (rw whole refl)

  -- What a stage that has run passes on of an input: its output, or after a failure that input.
  abbrev passed_on : Any X → String ⊎ Any X → Any X
  passed_on input (inl e) = input
  passed_on input (inr out) = out

  -- What a stage passes on; one that is not enabled passes its input on.
  abbrev stage_output : Bool → Any X → String ⊎ Any X → Any X
  stage_output false input r = input
  stage_output true input r = passed_on input r

  -- The outputs of the stages in turn, failures being skipped.
  unfoldable pub tolerant_output :
      PipelineDefinition X
      → (ℕ → ℕ)
      → ℕ
      → Option ℕ
      → ℕ
      → List (Stage X)
      → List (StageDefinition X)
      → Any X
      → Any X
  tolerant_output def now total d i [] stages input = input
  tolerant_output def now total d i (s ∷ ss) [] input = input
  tolerant_output def now total d i (s ∷ ss) (stage ∷ stages) input =
      tolerant_output def now total d (suc i) ss stages (
        stage_output stage.enabled input
          (s.perform (stage_context def stage total i (now i) d) input))

  turn-tolerant :
      (def : PipelineDefinition X) (stage : StageDefinition X) (i : ℕ) (on ignore : Bool)
      (input : Any X) (next : Any X → Option (Result X)) (r : String ⊎ Any X)
      → ignore ≡ true
      → turn on ignore input next (wrapped def stage i r) ≡ next (stage_output on input r)
  turn-tolerant def stage i false ignore input next r to_ignore = refl
  turn-tolerant def stage i true true input next (inl e) to_ignore = refl
  turn-tolerant def stage i true false input next (inl e) to_ignore = absurd (cc)
  turn-tolerant def stage i true ignore input next (inr out) to_ignore = refl

  -- A turn that ends in an error: the stage's own, or a later one.
  turn-failed :
      (on ignore : Bool) (input : Any X) (next : Any X → Option (Result X)) (r : Result X)
      (e : Error)
      → turn on ignore input next r ≡ some (inl e)
      → ((on ≡ true) × (ignore ≡ false) × (r ≡ inl e)) ⊎ ((out : Any X) × (next out ≡ some (inl e)))
  turn-failed false ignore input next r e h = inr (input, h)
  turn-failed true true input next (inl e') e h = inr (input, h)
  turn-failed true false input next (inl e') e h = inl (refl, refl, some-injective _ _ h)
  turn-failed true ignore input next (inr out) e h = inr (out, h)

  run_stages-tolerant :
      (def : PipelineDefinition X) (now : ℕ → ℕ) (total : ℕ) (d : Option ℕ) (i : ℕ)
      (ss : List (Stage X)) (stages : List (StageDefinition X)) (input : Any X)
      → length ss ≡ length stages
      → All (IsTolerant def) stages
      → run_stages def now total d i ss stages input
        ≡ some (inr (tolerant_output def now total d i ss stages input))
  unfolding run_stages tolerant_output
  run_stages-tolerant def now total d i [] stages input same all = refl
  run_stages-tolerant def now total d i (s ∷ ss) [] input same all = absurd (omega arith)
  run_stages-tolerant def now total d i (s ∷ ss) (stage ∷ stages) input same all =
      turn-tolerant def stage i stage.enabled (ignores def stage) input _ _
        (tolerant-ignores def stage all.0)
      ∙ run_stages-tolerant def now total d (suc i) ss stages _ (omega arith) all.1

  execute-runs :
      (start : ℕ) (now : ℕ → ℕ) (p : Impl X (Stage X)) (input : Any X)
      → p.def.enabled ≡ true
      → validate_input p.def.type_name input ≡ none
      → execute start now p input
        ≡ run_stages p.def now
            (length p.stages)
            (with_timeout start p.def.timeout none)
            0
            p.stages
            p.def.stages
            input
  unfolding execute
  execute-runs start now p input on good = ground arith

  -- An enabled pipeline in which each stage, or where it says nothing the pipeline, has the policy to continue, with a stage
  -- for each of its definitions, gives an output for every input that passes the check of its type: the stages' outputs in
  -- turn, where a stage that fails or is not enabled passes its own input on.
  pub execute-tolerant :
      (start : ℕ) (now : ℕ → ℕ) (p : Impl X (Stage X)) (input : Any X)
      → p.def.enabled ≡ true
      → validate_input p.def.type_name input ≡ none
      → length p.stages ≡ length p.def.stages
      → All (IsTolerant p.def) p.def.stages
      → execute start now p input
        ≡ some (
            inr (
              tolerant_output p.def now
                (length p.stages)
                (with_timeout start p.def.timeout none)
                0
                p.stages
                p.def.stages
                input))
  execute-tolerant start now p input on good same all =
      execute-runs start now p input on good
      ∙ run_stages-tolerant p.def now (length p.stages) (with_timeout start p.def.timeout none) 0
          p.stages p.def.stages input same all

  -- What a failure that ends a run says: the stage at that index is enabled, has that name, its
  -- failures are not ignored, and it did fail with that message.
  pub record Blames (def : PipelineDefinition X) (ss : List (Stage X))
      (stages : List (StageDefinition X)) (pipeline stage : String) (j : ℕ) (cause : Error)
      : Type 0 where
    pub definition : StageDefinition X
    pub runner : Stage X
    pub defined : get_elem? stages j ≡ some definition
    pub present : get_elem? ss j ≡ some runner
    pub own : (pipeline ≡ def.name) × (stage ≡ definition.name)
    pub enabled : definition.enabled ≡ true
    pub strict : ignores def definition ≡ false
    pub message : String
    pub says : cause ≡ stage_error message
    pub failed : (c : StageContext X) × (input : Any X) × (runner.perform c input ≡ inl message)

  wrapped-failed :
      (def : PipelineDefinition X) (stage : StageDefinition X) (i : ℕ) (r : String ⊎ Any X)
      (pipeline name : String) (j : ℕ) (cause : Error)
      → wrapped def stage i r ≡ inl (stage_failed pipeline name j cause)
      → (pipeline ≡ def.name)
        × (name ≡ stage.name)
        × (j ≡ i)
        × ((message : String) × (cause ≡ stage_error message) × (r ≡ inl message))
  wrapped-failed def stage i (inl message) pipeline name j cause e =
      (cc, cc, cc, (message, cc, refl))
  wrapped-failed def stage i (inr out) pipeline name j cause e = absurd (cc)

  run_stages-failed :
      (def : PipelineDefinition X) (now : ℕ → ℕ) (total : ℕ) (d : Option ℕ) (i : ℕ)
      (ss : List (Stage X)) (stages : List (StageDefinition X)) (input : Any X)
      (pipeline stage : String) (j : ℕ) (cause : Error)
      → run_stages def now total d i ss stages input
        ≡ some (inl (stage_failed pipeline stage j cause))
      → (k : ℕ) × (j ≡ i + k) × Blames def ss stages pipeline stage k cause
  unfolding run_stages
  run_stages-failed def now total d i [] stages input pl sn j cause e = absurd (cc)
  run_stages-failed def now total d i (s ∷ ss) [] input pl sn j cause e = absurd (cc)
  run_stages-failed def now total d i (s ∷ ss) (stage ∷ stages) input pl sn j cause e =
      elim (turn-failed stage.enabled (ignores def stage) input _ _ _ e) [
        | inl (on, strict, own) ↦
            let (is_pl, is_sn, is_j, (message, says, failed)) =
              wrapped-failed def stage i _ pl sn j cause own in
            (
              0,
              omega (arith, is_j),
              record {
                definition = stage;
                runner = s;
                defined = refl;
                present = refl;
                own = (is_pl, is_sn);
                enabled = on;
                strict = strict;
                message = message;
                says = says;
                failed = (_, input, failed);
              },
            )
        | inr (out, later) ↦
            let (k, at, blame) =
              run_stages-failed def now total d (suc i) ss stages out pl sn j cause later in
            (
              suc k,
              omega (arith, at),
              record {
                definition = blame.definition;
                runner = blame.runner;
                defined = blame.defined;
                present = blame.present;
                own = blame.own;
                enabled = blame.enabled;
                strict = blame.strict;
                message = blame.message;
                says = blame.says;
                failed = blame.failed;
              },
            )
      ]

  -- When a run ends in a stage's failure, the error tells the truth: it names the pipeline and a
  -- stage of it by index and name that is enabled, whose failures are not ignored, and whose own
  -- `Execute` failed with the message that the error carries.
  pub execute-Blames :
      (start : ℕ) (now : ℕ → ℕ) (p : Impl X (Stage X)) (input : Any X) (pipeline stage : String)
      (j : ℕ) (cause : Error)
      → execute start now p input ≡ some (inl (stage_failed pipeline stage j cause))
      → Blames p.def p.stages p.def.stages pipeline stage j cause
  unfolding execute
  execute-Blames start now p input pl sn j cause e = elim (Bool-cases p.def.enabled) [
    | inr off ↦ absurd (ground arith)
    | inl on ↦ elim (Option-cases (validate_input p.def.type_name input)) [
      | inr (bad, is) ↦ absurd (ground arith)
      | inl good ↦
          let (k, at, blame) =
            run_stages-failed p.def now (length p.stages) (with_timeout start p.def.timeout none) 0
              p.stages p.def.stages input pl sn j cause
              (sym (execute-runs start now p input on good) ∙ e) in
          subst (λ m. Blames p.def p.stages p.def.stages pl sn m cause) (omega (arith, at)) blame
    ]
  ]
