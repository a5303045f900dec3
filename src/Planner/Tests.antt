-- ===== src/Planner/Tests.antt =====
-- The theorems on the optimizer of pkg/coordination/planner at concrete plans, whose values are numbers.
use quidditch.Common.{ℕ, ◌+◌, ◌≤◌, ◌⊎◌, ◌≡◌, refl, true, none, some, [], ◌∷◌, arith, str_dec}
use quidditch.Planner.Plan.{term, Expr, expr, nil, Plan, scan, filter, project, aggregate, schema}
use quidditch.Planner.Rules.{
  default_rules, push_filter, make_top_n, no_rewrite, push_predicate, drop_filter,
  merge_projections, combine_filters, merged_fields, has_field,
}
use quidditch.Planner.Optimizer.{Optimizer, apply_first, optimize_node, passes, optimize}
use quidditch.Planner.Weight.{weight, default_rules-Shrinks}
use quidditch.Planner.Termination.{IsNormal, optimize-ends}
use quidditch.Planner.Schemas.{row_rules, optimize-schema}

abbrev is_7 : Expr ℕ
is_7 = expr term "price" (some 7) nil

abbrev in_stock : Expr ℕ
in_stock = expr term "stock" (some 1) nil

-- One page of the documents in stock at price 7, by two projections.
abbrev query : Plan ℕ
query =
    project ("price" ∷ [])
      (project ("stock" ∷ "price" ∷ [])
        (filter (some is_7) (scan "goods" (0 ∷ []) (some in_stock) 100) 10) none)
      (some [])

abbrev counted : Plan ℕ
counted = filter (some is_7) (aggregate [] [] (scan "goods" (0 ∷ []) none 100) (some [])) 10

abbrev row_optimizer : Optimizer ℕ
row_optimizer = record { rules = row_rules; max_passes = 10; cost_based = true }

abbrev default_optimizer : Optimizer ℕ
default_optimizer = record { rules = default_rules; max_passes = 10; cost_based = true }

optimize-ends_example :
    (q : Plan ℕ) × (optimize 20 default_optimizer query ≡ some q)
    × (IsNormal default_rules q ⊎ (weight q + 10 ≤ weight query))
optimize-ends_example = optimize-ends 20 default_optimizer query default_rules-Shrinks (omega arith)

optimize-schema_example :
    (q : Plan ℕ) × (optimize 20 row_optimizer query ≡ some q) × (schema q ≡ schema query)
optimize-schema_example = optimize-schema 20 row_optimizer query refl (omega arith)

-- Below the aggregate the filter counts two documents; above it, it drops the count.
pushed_counts :
    optimize 20 default_optimizer counted
    ≡ some (aggregate [] [] (scan "goods" (0 ∷ []) (some is_7) 10) none)
unfolding optimize passes optimize_node apply_first push_filter make_top_n no_rewrite push_predicate
    drop_filter merge_projections combine_filters
pushed_counts = refl

-- Two projections without a common field are merged into one without fields.
disjoint_fields :
    optimize 20 default_optimizer (
      project
        ("price" ∷ [])
        (project ("stock" ∷ []) (scan "goods" (0 ∷ []) none 100) (some []))
        (some []))
    ≡ some (project [] (scan "goods" (0 ∷ []) none 100) (some []))
unfolding optimize passes optimize_node apply_first push_filter make_top_n no_rewrite push_predicate
    drop_filter merge_projections combine_filters merged_fields has_field str_dec
disjoint_fields = refl
