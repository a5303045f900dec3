-- ===== src/Planner/Weight.antt =====
-- A weight of plans, for the rules of pkg/coordination/planner/optimizer.go: a filter counts the
-- nodes below it twice, since it may still be pushed down.
use quidditch.Common.{ℕ, ◌+◌, ◌*◌, ◌<◌, ◌≡◌, none, some, arith, All}
use quidditch.Planner.Plan.{Plan, scan, filter, project, aggregate, sort, limit, top_n}
use quidditch.Planner.Rules.{
  Rule, push_filter, no_rewrite, drop_filter, merge_projections, make_top_n, push_predicate,
  default_rules,
}

module _ {V : Type 0} where
  abbrev pub weight : Plan V → ℕ
  weight (scan i s f r) = 1
  weight (filter c p r) = 2 * weight p + 1
  weight (project fs p s) = weight p + 1
  weight (aggregate g a p s) = weight p + 1
  weight (sort fs p) = weight p + 1
  weight (limit o n p) = weight p + 1
  weight (top_n n o fs p) = weight p + 1

  abbrev pub Shrinks : Rule V → Type 0
  Shrinks r = (p q : Plan V) → r.apply p ≡ some q → weight q < weight p

  weight-pos : (p : Plan V) → 0 < weight p
  weight-pos (filter c p r) = omega (arith, weight-pos p)
  weight-pos _ = omega arith

  push_filter-weight : (p q : Plan V) → push_filter p ≡ some q → weight q < weight p
  unfolding push_filter
  push_filter-weight (filter c (scan i s f r) rows) q e = ground arith
  push_filter-weight (filter c (filter _ _ _) rows) q e = absurd (cc)
  push_filter-weight (filter c _ rows) q e = absurd (cc)
  push_filter-weight _ q e = absurd (cc)

  no_rewrite-weight : (p q : Plan V) → no_rewrite p ≡ some q → weight q < weight p
  unfolding no_rewrite
  no_rewrite-weight p q e = absurd (cc)

  drop_filter-weight : (p q : Plan V) → drop_filter p ≡ some q → weight q < weight p
  unfolding drop_filter
  drop_filter-weight (filter (some c) p rows) q e = ground arith
  drop_filter-weight (filter none p rows) q e = absurd (cc)
  drop_filter-weight _ q e = absurd (cc)

  merge_projections-weight : (p q : Plan V) → merge_projections p ≡ some q → weight q < weight p
  unfolding merge_projections
  merge_projections-weight (project fs (project gs p t) s) q e = ground arith
  merge_projections-weight (project fs _ s) q e = absurd (cc)
  merge_projections-weight _ q e = absurd (cc)

  make_top_n-weight : (p q : Plan V) → make_top_n p ≡ some q → weight q < weight p
  unfolding make_top_n
  make_top_n-weight (limit o n (sort fs p)) q e = ground arith
  make_top_n-weight (limit o n _) q e = absurd (cc)
  make_top_n-weight _ q e = absurd (cc)

  push_predicate-weight : (p q : Plan V) → push_predicate p ≡ some q → weight q < weight p
  unfolding push_predicate
  push_predicate-weight (filter c (aggregate g a p s) rows) q e = ground arith
  push_predicate-weight (filter c _ rows) q e = absurd (cc)
  push_predicate-weight _ q e = absurd (cc)

  pub default_rules-Shrinks : All Shrinks default_rules
  default_rules-Shrinks = (
    push_filter-weight,
    (
      make_top_n-weight,
      (
        no_rewrite-weight,
        (
          no_rewrite-weight,
          (push_predicate-weight, (drop_filter-weight, (merge_projections-weight, tt))),
        ),
      ),
    ),
  )
