-- ===== src/Pipeline/Definition.antt =====
-- Pipeline and stage definitions, pkg/coordination/pipeline/types.go. The string types of the source
-- (`PipelineType`, `StageType`, `FailurePolicy`) are strings. A pointer that may be nil is an option.
use quidditch.Common.{ℕ, String, Bool, Option, List, Map}

-- The values of an `interface{}` that the code tells apart: nil, strings, arrays, objects and the rest,
-- whose contents are a parameter `X`.
pub data Any (X : Type 0) : Type 0 where
  nil_value : Any X
  string : String → Any X
  array : List X → Any X
  object : X → Any X
  other : X → Any X

pub record StageDefinition (X : Type 0) : Type 0 where
  pub name : String
  pub type_name : String
  pub config : Option (Map (Any X))
  pub on_failure : String
  pub timeout : Option ℕ
  pub enabled : Bool

pub record PipelineDefinition (X : Type 0) : Type 0 where
  pub name : String
  pub version : String
  pub type_name : String
  pub description : String
  pub stages : List (StageDefinition X)
  pub metadata : Map (Any X)
  pub enabled : Bool
  pub on_failure : String
  pub timeout : Option ℕ
  pub created : ℕ
  pub updated : ℕ

-- The fields that a `ValidationError` names; a number is the stage's index.
pub data Place : Type 0 where
  name_field version_field type_field stages_field : Place
  stage_name stage_type stage_config : ℕ → Place
  config_key : ℕ → String → Place

-- Its messages.
pub data Reason : Type 0 where
  missing bad_type not_a_string not_an_object not_an_array no_stages : Reason
  duplicate taken : String → Reason
  wrong_type : String → String → String → Reason

-- The errors of the registry and of the executor.
pub data Error : Type 0 where
  invalid : Place → Reason → Error
  not_found : String → Error
  still_associated : String → String → String → Error
  no_pipelines : String → Error
  no_pipeline : String → String → Error
  inconsistent : String → Error
  no_stats : String → Error
  nil_input : Error
  wrong_input unknown_type : String → Error
  bad_input : String → Error → Error
  stage_failed : String → String → ℕ → Error → Error
  stage_error : String → Error
