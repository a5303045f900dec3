-- ===== src/Pipeline/Registry.antt =====
-- `Registry` of pkg/coordination/pipeline/registry.go: registration, lookup, association with indexes
-- and statistics. Each method holds the lock for its whole body; it returns the new registry and
-- its error, `none` for nil. Durations are int64 patterns.
use quidditch.Common.{
  ℕ, String, Bool, true, Option, none, some, List, [], ◌∷◌, Map, lookup, insert, delete,
  if◌then◌else◌, str_eq, str_dec, ite, add64, ◌>>=◌,
}
use quidditch.Pipeline.Definition.{
  PipelineDefinition, name_field, type_field, taken, wrong_type, Error, invalid, not_found,
  still_associated, no_pipelines, no_pipeline, inconsistent,
}
use quidditch.Pipeline.Validate.{validate_pipeline}
use quidditch.Pipeline.Stats.{
  StageStats, PipelineStats, empty_stages, new_stats, next_average, merge_stages, recorded,
}

-- `pipelineImpl`: a definition and the stages `S` that run it.
pub record Impl (X S : Type 0) : Type 0 where
  pub def : PipelineDefinition X
  pub stages : List S

pub record Registry (X S : Type 0) : Type 0 where
  pub pipelines : Map (Impl X S)
  pub index_pipelines : Map (Map String)
  pub stats : Map PipelineStats

-- The entries of an index that name the pipeline: the type of the first.
unfoldable pub type_with : String → Map String → Option String
type_with n [] = none
type_with n ((t, p) ∷ m) = ite (str_dec p n) (some t) (type_with n m)

-- The loop of `Unregister` over the indexes: the first index and type that use the pipeline.
unfoldable pub user_of : String → Map (Map String) → Option (String × String)
user_of n [] = none
user_of n ((ix, m) ∷ ms) = elim (type_with n m) [ some t ↦ some (ix, t) | none ↦ user_of n ms ]

-- The index's entries; a missing map is made.
abbrev pub entries : String → Map (Map String) → Map String
entries ix ms = elim (lookup ix ms) [ some m ↦ m | none ↦ [] ]

-- The map of an index, dropped once it is empty.
abbrev pub put_or_drop : String → Map String → Map (Map String) → Map (Map String)
put_or_drop ix [] ms = delete ix ms
put_or_drop ix (x ∷ m) ms = insert ix (x ∷ m) ms

abbrev pub Outcome : Type 0 → Type 0 → Type 0
Outcome X S = Registry X S × Option Error

module _ {X S : Type 0} where
  abbrev pub new_registry : Registry X S
  new_registry = record { pipelines = []; index_pipelines = []; stats = [] }

  -- What `Register` stores at time `now`: no stages yet, and fresh statistics.
  unfoldable pub registered : ℕ → PipelineDefinition X → Registry X S → Registry X S
  registered now def r = record r {
    pipelines =
        insert def.name (record { def = record def { created = now; updated = now }; stages = [] })
          r.pipelines;
    stats = insert def.name (new_stats def.name (empty_stages def.stages)) r.stats;
  }

  unfoldable pub register : ℕ → PipelineDefinition X → Registry X S → Outcome X S
  register now def r = elim (validate_pipeline def) [
    | some e ↦ (r, some e)
    | none ↦ elim (lookup def.name r.pipelines) [
      | some _ ↦ (r, some (invalid name_field (taken def.name)))
      | none ↦ (registered now def r, none)
    ]
  ]

  unfoldable pub get : String → Registry X S → Option (Impl X S)
  get n r = lookup n r.pipelines

  abbrev wanted : String → Impl X S → Bool
  wanted t impl = if str_eq t "" then true else str_eq impl.def.type_name t

  -- `List(filterType)`, in the order of the range.
  unfoldable pub list : String → Map (Impl X S) → List (PipelineDefinition X)
  list t [] = []
  list t ((n, impl) ∷ m) = let rest = list t m in if wanted t impl then impl.def ∷ rest else rest

  unfoldable pub unregister : String → Registry X S → Outcome X S
  unregister n r = elim (lookup n r.pipelines) [
    | none ↦ (r, some (not_found n))
    | some _ ↦ elim (user_of n r.index_pipelines) [
      | some (ix, t) ↦ (r, some (still_associated n ix t))
      | none ↦ (record r { pipelines = delete n r.pipelines; stats = delete n r.stats }, none)
    ]
  ]

  unfoldable pub associate : String → String → String → Registry X S → Outcome X S
  associate ix t n r = elim (lookup n r.pipelines) [
    | none ↦ (r, some (not_found n))
    | some impl ↦
        ite (str_dec impl.def.type_name t)
          (
            record r {
              index_pipelines =
                  insert ix (insert t n (entries ix r.index_pipelines)) r.index_pipelines;
            },
            none,
          )
          (r, some (invalid type_field (wrong_type n impl.def.type_name t)))
  ]

  unfoldable pub pipeline_for_index :
      String → String → Registry X S → Option (Impl X S) × Option Error
  pipeline_for_index ix t r = elim (lookup ix r.index_pipelines) [
    | none ↦ (none, some (no_pipelines ix))
    | some m ↦ elim (lookup t m) [
      | none ↦ (none, some (no_pipeline ix t))
      | some n ↦ elim (lookup n r.pipelines) [
        | none ↦ (none, some (inconsistent n))
        | some impl ↦ (some impl, none)
      ]
    ]
  ]

  unfoldable pub disassociate : String → String → Registry X S → Outcome X S
  disassociate ix t r = elim (lookup ix r.index_pipelines) [
    | none ↦ (r, some (no_pipelines ix))
    | some m ↦ elim (lookup t m) [
      | none ↦ (r, some (no_pipeline ix t))
      | some _ ↦
          (record r { index_pipelines = put_or_drop ix (delete t m) r.index_pipelines }, none)
    ]
  ]

  -- `GetStats`: a copy.
  unfoldable pub get_stats : String → Registry X S → Option PipelineStats
  get_stats n r = lookup n r.stats

  -- The body of `UpdateStats` for the statistics that it found; `none` is a panic.
  unfoldable pub updated :
      (ℕ → ℕ)
      → (ℕ → ℕ)
      → ℕ
      → String
      → ℕ
      → Bool
      → List StageStats
      → Registry X S
      → PipelineStats
      → Option (Registry X S)
  updated scaled_15 scaled_20 now n duration success stages r s = do
    average ← next_average (add64 s.total 1) s.average duration
    merged ← merge_stages s.stage_stats stages
    some (record r {
      stats =
          insert n (recorded now success average (scaled_15 average) (scaled_20 average) merged s)
            r.stats;
    })

  -- `UpdateStats` at time `now`; `scaled_15` and `scaled_20` multiply a duration by 1.5 and 2.0 in
  -- float64. `none` is a panic.
  unfoldable pub update_stats :
      (ℕ → ℕ)
      → (ℕ → ℕ)
      → ℕ
      → String
      → ℕ
      → Bool
      → List StageStats
      → Registry X S
      → Option (Registry X S)
  update_stats scaled_15 scaled_20 now n duration success stages r = elim (lookup n r.stats) [
    | none ↦ some r
    | some s ↦ updated scaled_15 scaled_20 now n duration success stages r s
  ]
