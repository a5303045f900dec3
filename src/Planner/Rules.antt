-- ===== src/Planner/Rules.antt =====
-- The rules of pkg/coordination/planner/optimizer.go. `Apply` returns the new plan, or `none` where
-- the source returns `nil, false`.
use quidditch.Common.{
  ℕ, String, Bool, true, false, Option, none, some, List, [], ◌∷◌, if◌then◌else◌, str_dec, ite,
}
use quidditch.Planner.Plan.{
  ExprKind, bool, match_all, Expr, expr, nil, cons, kind_of, Plan, scan, filter, project, aggregate,
  sort, limit, top_n,
}

pub record Rule (V : Type 0) : Type 0 where
  pub name : String
  pub priority : ℕ
  pub apply : Plan V → Option (Plan V)

-- The inner loop of `ProjectionMergingRule.Apply`: is the field among the child's?
unfoldable pub has_field : String → List String → Bool
has_field f [] = false
has_field f (g ∷ gs) = ite (str_dec f g) true (has_field f gs)

-- Its outer loop.
unfoldable pub merged_fields : List String → List String → List String
merged_fields [] gs = []
merged_fields (f ∷ fs) gs =
    let rest = merged_fields fs gs in if has_field f gs then f ∷ rest else rest

abbrev pub is_match_all : ExprKind → Bool
is_match_all match_all = true
is_match_all _ = false

module _ {V : Type 0} where
  unfoldable pub combine_filters : Option (Expr V) → Option (Expr V) → Option (Expr V)
  combine_filters none f2 = f2
  combine_filters (some f1) none = some f1
  combine_filters (some f1) (some f2) = some (expr bool "" none (cons f1 (cons f2 nil)))

  unfoldable pub push_filter : Plan V → Option (Plan V)
  push_filter (filter c (scan i s f r) rows) = some (scan i s (combine_filters f c) rows)
  push_filter _ = none

  unfoldable pub no_rewrite : Plan V → Option (Plan V)
  no_rewrite p = none

  unfoldable pub drop_filter : Plan V → Option (Plan V)
  drop_filter (filter (some c) p rows) = if is_match_all (kind_of c) then some p else none
  drop_filter _ = none

  unfoldable pub merge_projections : Plan V → Option (Plan V)
  merge_projections (project fs (project gs p t) s) = some (project (merged_fields fs gs) p s)
  merge_projections _ = none

  unfoldable pub make_top_n : Plan V → Option (Plan V)
  make_top_n (limit o n (sort fs p)) = some (top_n n o fs p)
  make_top_n _ = none

  -- The new aggregate has no output schema.
  unfoldable pub push_predicate : Plan V → Option (Plan V)
  push_predicate (filter c (aggregate g a p s) rows) = some (aggregate g a (filter c p rows) none)
  push_predicate _ = none

  abbrev pub filter_pushdown : Rule V
  filter_pushdown = record { name = "FilterPushdown"; priority = 100; apply = push_filter }

  -- Disabled in the source.
  abbrev pub projection_pushdown : Rule V
  projection_pushdown = record { name = "ProjectionPushdown"; priority = 90; apply = no_rewrite }

  -- To be implemented in the source.
  abbrev pub limit_pushdown : Rule V
  limit_pushdown = record { name = "LimitPushdown"; priority = 80; apply = no_rewrite }

  abbrev pub redundant_filter_elimination : Rule V
  redundant_filter_elimination = record {
    name = "RedundantFilterElimination";
    priority = 70;
    apply = drop_filter;
  }

  abbrev pub projection_merging : Rule V
  projection_merging = record {
    name = "ProjectionMerging";
    priority = 60;
    apply = merge_projections;
  }

  abbrev pub top_n_optimization : Rule V
  top_n_optimization = record { name = "TopNOptimization"; priority = 85; apply = make_top_n }

  abbrev pub predicate_pushdown : Rule V
  predicate_pushdown = record {
    name = "PredicatePushdownForAggregations";
    priority = 75;
    apply = push_predicate;
  }

  -- `GetDefaultRules`
  abbrev pub default_rules : List (Rule V)
  default_rules =
      filter_pushdown ∷ top_n_optimization ∷ projection_pushdown ∷ limit_pushdown
      ∷ predicate_pushdown ∷ redundant_filter_elimination ∷ projection_merging ∷ []
