-- ===== src/Pipeline/Validate.antt =====
-- `validatePipeline` and what it calls, pkg/coordination/pipeline/registry.go; `none` is a nil error.
use quidditch.Common.{
  ℕ, suc, String, Bool, true, false, Option, none, some, List, [], ◌∷◌, Map, lookup, insert,
  if◌then◌else◌, str_eq, not,
}
use quidditch.Pipeline.Definition.{
  Any, string, array, object, StageDefinition, PipelineDefinition, Place, name_field, version_field,
  type_field, stages_field, stage_name, stage_type, stage_config, config_key, Reason, missing,
  bad_type, not_a_string, not_an_object, not_an_array, no_stages, duplicate, Error, invalid,
}

-- `if err := ...; err != nil { return err }`
abbrev pub or_else : Option Error → Option Error → Option Error
or_else (some e) rest = some e
or_else none rest = rest

abbrev check : Bool → Place → Reason → Option Error
check b p r = if b then some (invalid p r) else none

abbrev pub is_name : String → Map Bool → Bool
is_name n names = elim (lookup n names) [ some b ↦ b | none ↦ false ]

abbrev pub valid_stage_type : String → Bool
valid_stage_type t =
    if str_eq t "python" then true else if str_eq t "native" then true else str_eq t "composite"

abbrev pub valid_type : String → Bool
valid_type t =
    if str_eq t "query" then true else if str_eq t "document" then true else str_eq t "result"

module _ {X : Type 0} where
  abbrev string_value : Any X → Place → Option Error
  string_value (string s) p = none
  string_value _ p = some (invalid p not_a_string)

  abbrev object_value : Any X → Place → Option Error
  object_value (object m) p = none
  object_value _ p = some (invalid p not_an_object)

  abbrev array_value : Any X → Place → Option Error
  array_value (array []) p = some (invalid p no_stages)
  array_value (array (x ∷ xs)) p = none
  array_value _ p = some (invalid p not_an_array)

  -- A key that has to be there, and one that may.
  abbrev required_key : Map (Any X) → ℕ → String → (Any X → Place → Option Error) → Option Error
  required_key config i key accept = elim (lookup key config) [
    | none ↦ some (invalid (config_key i key) missing)
    | some v ↦ accept v (config_key i key)
  ]

  abbrev optional_key : Map (Any X) → ℕ → String → (Any X → Place → Option Error) → Option Error
  optional_key config i key accept = elim (lookup key config) [
    | none ↦ none
    | some v ↦ accept v (config_key i key)
  ]

  unfoldable pub validate_python_stage_config : Map (Any X) → ℕ → Option Error
  validate_python_stage_config config i = or_else (required_key config i "udf_name" string_value) (
      or_else (optional_key config i "udf_version" string_value)
        (optional_key config i "parameters" object_value))

  unfoldable pub validate_native_stage_config : Map (Any X) → ℕ → Option Error
  validate_native_stage_config config i = required_key config i "function" string_value

  unfoldable pub validate_composite_stage_config : Map (Any X) → ℕ → Option Error
  validate_composite_stage_config config i = required_key config i "stages" array_value

  -- The switch on the stage's type, without a case for an unknown one.
  unfoldable pub validate_config : String → Map (Any X) → ℕ → Option Error
  validate_config t config i =
      if str_eq t "python"
      then validate_python_stage_config config i
      else if str_eq t "native"
      then validate_native_stage_config config i
      else if str_eq t "composite"
      then validate_composite_stage_config config i
      else none

  unfoldable pub validate_stage : StageDefinition X → ℕ → Map Bool → Option Error
  unfolding lookup
  validate_stage stage i names = or_else (check (str_eq stage.name "") (stage_name i) missing) (
      or_else (check (is_name stage.name names) (stage_name i) (duplicate stage.name)) (
        or_else (check (str_eq stage.type_name "") (stage_type i) missing) (
          or_else (check (not (valid_stage_type stage.type_name)) (stage_type i) bad_type)
            (elim stage.config [
              | none ↦ some (invalid (stage_config i) missing)
              | some config ↦ validate_config stage.type_name config i
            ]))))

  -- The loop over the stages, from index `i` on, with the names seen so far.
  unfoldable pub validate_stages : List (StageDefinition X) → ℕ → Map Bool → Option Error
  validate_stages [] i names = none
  validate_stages (stage ∷ stages) i names =
      or_else (validate_stage stage i names)
        (validate_stages stages (suc i) (insert stage.name true names))

  abbrev is_empty : List (StageDefinition X) → Bool
  is_empty [] = true
  is_empty (_ ∷ _) = false

  unfoldable pub validate_pipeline : PipelineDefinition X → Option Error
  validate_pipeline def = or_else (check (str_eq def.name "") name_field missing) (
      or_else (check (str_eq def.version "") version_field missing) (
        or_else (check (str_eq def.type_name "") type_field missing) (
          or_else (check (not (valid_type def.type_name)) type_field bad_type) (
            or_else (check (is_empty def.stages) stages_field no_stages)
              (validate_stages def.stages 0 [])))))
