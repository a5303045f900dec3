-- ===== src/Planner/Schemas.antt =====
-- The output schema of a plan under the optimizer of pkg/coordination/planner/optimizer.go.
use mathlib.Core.Path.{subst}
use quidditch.Common.{
  ℕ, zero, suc, ◌≤◌, ◌<◌, ◌≡◌, refl, sym, ap, String, Bool, true, false, Option, none, some,
  some-injective, List, [], ◌∷◌, arith, All,
}
use quidditch.Planner.Plan.{
  match_all, Expr, expr, Aggregation, Schema, Plan, scan, filter, project, aggregate, sort, limit,
  top_n, schema,
}
use quidditch.Planner.Rules.{
  push_filter, no_rewrite, drop_filter, merge_projections, make_top_n, push_predicate,
  default_rules, Rule, filter_pushdown, projection_pushdown, limit_pushdown,
  redundant_filter_elimination, projection_merging, top_n_optimization,
}
use quidditch.Planner.Optimizer.{
  Optimizer, changed, optimize_node, next_pass, apply_first, with_child, passes, optimize,
}
use quidditch.Planner.Weight.{weight, Shrinks, default_rules-Shrinks}
use quidditch.Planner.Termination.{passes-ends}
use quidditch.Planner.Preserve.{view-IsPreorder, IsCongruent, Preserves, optimize-R}

module _ {V : Type 0} where
  -- The default rules without `PredicatePushdownRule`, which builds an aggregate without a schema.
  abbrev pub row_rules : List (Rule V)
  row_rules =
      filter_pushdown ∷ top_n_optimization ∷ projection_pushdown ∷ limit_pushdown
      ∷ redundant_filter_elimination ∷ projection_merging ∷ []

  row_rules-Shrink : All Shrinks row_rules
  row_rules-Shrink =
      let (push, (top, (idle, (idle', (_, (drop, (merge, end))))))) = default_rules-Shrinks in
      (push, (top, (idle, (idle', (drop, (merge, end))))))

  push_filter-schema : (p q : Plan V) → push_filter p ≡ some q → schema q ≡ schema p
  unfolding push_filter schema
  push_filter-schema (filter c (scan i s f r) rows) q h = rw (sym (some-injective _ _ h)) refl
  push_filter-schema (filter c _ rows) q h = absurd (cc)
  push_filter-schema _ q h = absurd (cc)

  no_rewrite-schema : (p q : Plan V) → no_rewrite p ≡ some q → schema q ≡ schema p
  unfolding no_rewrite
  no_rewrite-schema p q h = absurd (cc)

  make_top_n-schema : (p q : Plan V) → make_top_n p ≡ some q → schema q ≡ schema p
  unfolding make_top_n schema
  make_top_n-schema (limit o n (sort fs p)) q h = rw (sym (some-injective _ _ h)) refl
  make_top_n-schema (limit o n _) q h = absurd (cc)
  make_top_n-schema _ q h = absurd (cc)

  drop_filter-schema : (p q : Plan V) → drop_filter p ≡ some q → schema q ≡ schema p
  unfolding drop_filter schema
  drop_filter-schema (filter (some (expr match_all f v cs)) p rows) q h =
      rw (sym (some-injective _ _ h)) refl
  drop_filter-schema (filter (some (expr _ f v cs)) p rows) q h = absurd (cc)
  drop_filter-schema (filter none p rows) q h = absurd (cc)
  drop_filter-schema _ q h = absurd (cc)

  merge_projections-schema : (p q : Plan V) → merge_projections p ≡ some q → schema q ≡ schema p
  unfolding merge_projections schema
  merge_projections-schema (project fs (project gs p t) s) q h =
      rw (sym (some-injective _ _ h)) refl
  merge_projections-schema (project fs _ s) q h = absurd (cc)
  merge_projections-schema _ q h = absurd (cc)

  -- The output schema is that of the given plan.
  abbrev SameSchema : Plan V → Plan V → Type 0
  SameSchema p q = schema q ≡ schema p

  schema-IsCongruent : IsCongruent SameSchema
  unfolding schema
  schema-IsCongruent (scan i s f r) q p h same = absurd (cc)
  schema-IsCongruent (filter c p r) q p' h same = rw (sym (some-injective _ _ h)) same.0
  schema-IsCongruent (project fs p s) q p' h same = rw (sym (some-injective _ _ h)) refl
  schema-IsCongruent (aggregate g a p s) q p' h same = rw (sym (some-injective _ _ h)) refl
  schema-IsCongruent (sort fs p) q p' h same = rw (sym (some-injective _ _ h)) same.0
  schema-IsCongruent (limit o n p) q p' h same = rw (sym (some-injective _ _ h)) same.0
  schema-IsCongruent (top_n n o fs p) q p' h same = rw (sym (some-injective _ _ h)) same.0

  row_rules-schema : All (Preserves SameSchema) row_rules
  row_rules-schema = (
    push_filter-schema,
    (
      make_top_n-schema,
      (
        no_rewrite-schema,
        (no_rewrite-schema, (drop_filter-schema, (merge_projections-schema, tt))),
      ),
    ),
  )

  -- `Optimize` with the default rules but `PredicatePushdownRule` returns a plan with the output
  -- schema of the plan it was given. Fuel above the plan's weight is enough.
  pub optimize-schema :
      (fuel : ℕ) (o : Optimizer V) (p : Plan V)
      → o.rules ≡ row_rules
      → weight p < fuel
      → (q : Plan V) × (optimize fuel o p ≡ some q) × (schema q ≡ schema p)
  optimize-schema fuel o p rules enough =
      optimize-R SameSchema fuel o p (view-IsPreorder (Option Schema) schema) schema-IsCongruent
        (subst (λ rs. All Shrinks rs) (sym rules) row_rules-Shrink)
        (subst (λ rs. All (Preserves SameSchema) rs) (sym rules) row_rules-schema) enough

  -- An aggregate without an output schema.
  abbrev IsBare : Plan V → Type 0
  IsBare q =
      (g : List String) × (a : List (Aggregation V)) × (p : Plan V) × (q ≡ aggregate g a p none)

  optimize_node-IsBare :
      (fuel : ℕ) (g : List String) (a : List (Aggregation V)) (p q : Plan V) (b : Bool)
      → optimize_node fuel default_rules (aggregate g a p none) ≡ some (q, b)
      → IsBare q
  unfolding optimize_node apply_first push_filter make_top_n no_rewrite push_predicate drop_filter
      merge_projections
  optimize_node-IsBare zero g a p q b e = absurd (cc)
  optimize_node-IsBare (suc fuel) g a p q b e = child (optimize_node fuel default_rules p) e
    where
      child :
          (v : Option (Plan V × Bool))
          → with_child (aggregate g a p none) v ≡ some (q, b)
          → IsBare q
      child none e = absurd (cc)
      child (some (c, true)) e = (g, a, c, sym (ap (λ x. x.0) (some-injective _ _ e)))
      child (some (c, false)) e = (g, a, p, sym (ap (λ x. x.0) (some-injective _ _ e)))

  passes-IsBare :
      (k fuel : ℕ) (q r : Plan V) → IsBare q → passes k fuel default_rules q ≡ some r → IsBare r
  unfolding passes
  passes-IsBare zero fuel q r bare e = subst IsBare (some-injective _ _ e) bare
  passes-IsBare (suc k) fuel q r (g, a, p, is) e =
      next (optimize_node fuel default_rules q)
        (λ q' b h.
          optimize_node-IsBare fuel g a p q' b
            (subst (λ x. optimize_node fuel default_rules x ≡ some (q', b)) is h))
        (λ q' bare h. passes-IsBare k fuel q' r bare h) e
    where
      next :
          (v : Option (Plan V × Bool))
          → ((q' : Plan V) (b : Bool) → v ≡ some (q', b) → IsBare q')
          → ((q' : Plan V) → IsBare q' → passes k fuel default_rules q' ≡ some r → IsBare r)
          → next_pass q (λ x. passes k fuel default_rules x) v ≡ some r
          → IsBare r
      next none visit again e = absurd (cc)
      next (some (q', true)) visit again e = again q' (visit q' true refl) e
      next (some (q', false)) visit again e = subst IsBare (some-injective _ _ e) (g, a, p, is)

  pushed-visit :
      (fuel : ℕ) (c : Option (Expr V)) (g : List String) (a : List (Aggregation V)) (p : Plan V)
      (s : Option Schema) (rows : ℕ) (q : Plan V) (b : Bool)
      → optimize_node fuel default_rules (filter c (aggregate g a p s) rows) ≡ some (q, b)
      → IsBare q × (b ≡ true)
  unfolding optimize_node apply_first push_filter make_top_n no_rewrite push_predicate
  pushed-visit zero c g a p s rows q b e = absurd (cc)
  pushed-visit (suc fuel) c g a p s rows q b e =
      again (optimize_node fuel default_rules (aggregate g a (filter c p rows) none))
        (λ q' b' h. optimize_node-IsBare fuel g a (filter c p rows) q' b' h) e
    where
      again :
          (v : Option (Plan V × Bool))
          → ((q' : Plan V) (b' : Bool) → v ≡ some (q', b') → IsBare q')
          → changed v ≡ some (q, b)
          → IsBare q × (b ≡ true)
      again none bare e = absurd (cc)
      again (some (q', b')) bare e = (
        subst IsBare (ap (λ x. x.0) (some-injective _ _ e)) (bare q' b' refl),
        sym (ap (λ x. x.1) (some-injective _ _ e)),
      )

  pushed-passes :
      (k fuel : ℕ) (q r : Plan V)
      → ((q' : Plan V) (b : Bool)
          → optimize_node fuel default_rules q ≡ some (q', b)
          → IsBare q' × (b ≡ true))
      → passes (suc k) fuel default_rules q ≡ some r
      → IsBare r
  unfolding passes
  pushed-passes k fuel q r visit e = next (optimize_node fuel default_rules q) visit e
    where
      next :
          (v : Option (Plan V × Bool))
          → ((q' : Plan V) (b : Bool) → v ≡ some (q', b) → IsBare q' × (b ≡ true))
          → next_pass q (λ x. passes k fuel default_rules x) v ≡ some r
          → IsBare r
      next none visit e = absurd (cc)
      next (some (q', true)) visit e = passes-IsBare k fuel q' r (visit q' true refl).0 e
      next (some (q', false)) visit e = absurd (cc (visit q' false refl).1)

  -- A filter over an aggregate, whatever their output schema was, is returned by `Optimize` with all
  -- the default rules, in one pass or more, as a plan without an output schema: the rule that moves
  -- the filter below the aggregate builds a new aggregate and does not set it. Fuel above the plan's
  -- weight is enough.
  pub optimize-schema_lost :
      (fuel : ℕ) (o : Optimizer V) (c : Option (Expr V)) (g : List String)
      (a : List (Aggregation V)) (p : Plan V) (s : Option Schema) (rows : ℕ)
      → o.rules ≡ default_rules
      → 1 ≤ o.max_passes
      → weight (filter c (aggregate g a p s) rows) < fuel
      → (q : Plan V) × (optimize fuel o (filter c (aggregate g a p s) rows) ≡ some q)
        × (schema q ≡ none)
  unfolding optimize schema
  optimize-schema_lost fuel o c g a p s rows rules enough light =
      let (q, ends, _) =
        passes-ends o.max_passes fuel default_rules (filter c (aggregate g a p s) rows)
          default_rules-Shrinks light in
      let bare =
        one_or_more o.max_passes enough (filter c (aggregate g a p s) rows) q
          (λ q' b h. pushed-visit fuel c g a p s rows q' b h) ends in
      (q, rw (rules, ends, optimize) (ground arith), bare_schema q bare)
    where
      one_or_more :
          (k : ℕ)
          → 1 ≤ k
          → (p q : Plan V)
          → ((q' : Plan V) (b : Bool)
              → optimize_node fuel default_rules p ≡ some (q', b)
              → IsBare q' × (b ≡ true))
          → passes k fuel default_rules p ≡ some q
          → IsBare q
      one_or_more zero enough p q visit e = absurd (omega arith)
      one_or_more (suc k) enough p q visit e = pushed-passes k fuel p q visit e

      bare_schema : (q : Plan V) → IsBare q → schema q ≡ none
      bare_schema q (g, a, p, is) = rw is refl
