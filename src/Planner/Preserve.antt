-- ===== src/Planner/Preserve.antt =====
-- Relations between a plan and its rewritings under the optimizer of pkg/coordination/planner/optimizer.go.
use mathlib.Core.Path.{subst}
use quidditch.Common.{
  ℕ, zero, suc, ◌<◌, ◌≡◌, refl, ◌∙◌, Bool, true, false, Option, none, some, some-injective, List,
  [], ◌∷◌, arith, All, Option-cases, inl, inr,
}
use quidditch.Planner.Plan.{
  Plan, scan, filter, project, aggregate, sort, limit, top_n, children, set_child,
}
use quidditch.Planner.Rules.{Rule}
use quidditch.Planner.Optimizer.{
  Optimizer, apply_first, with_child, over_children, changed, optimize_node, next_pass, passes,
  optimize,
}
use quidditch.Planner.Weight.{weight, Shrinks}
use quidditch.Planner.Termination.{passes-ends}

-- A plan's relation to itself and to what its rewritings are rewritten to.
pub record IsPreorder {V : Type 0} (R : Plan V → Plan V → Type 0) : Type 0 where
  pub same : (p : Plan V) → R p p
  pub after : (p q r : Plan V) → R p q → R q r → R p r

pub view-IsPreorder :
    {V : Type 0} (X : Type 0) (see : Plan V → X) → IsPreorder (λ p q. see q ≡ see p)
view-IsPreorder X see = record { same = λ p. refl; after = λ p q r a b. b ∙ a }

module _ {V : Type 0} (R : Plan V → Plan V → Type 0) where
  -- A plan with a new child is related to the plan where the new child is to the old one.
  abbrev pub IsCongruent : Type 0
  IsCongruent =
      (p q p' : Plan V) → set_child 0 q p ≡ some p' → All (λ c. R c q) (children p) → R p p'

  -- A rule relates what it rewrites.
  abbrev pub Preserves : Rule V → Type 0
  Preserves r = (p q : Plan V) → r.apply p ≡ some q → R p q

  apply_first-R :
      (rs : List (Rule V)) (p q : Plan V) → All Preserves rs → apply_first rs p ≡ some q → R p q
  unfolding apply_first
  apply_first-R [] p q all e = absurd (cc)
  apply_first-R (r ∷ rs) p q all e = elim (Option-cases (r.apply p)) [
    | inl pass ↦ apply_first-R rs p q all.1 (ground arith)
    | inr (q', hit) ↦ all.0 p q (ground arith)
  ]

  -- The plan is related to a visit's result.
  abbrev Sees : Plan V → Option (Plan V × Bool) → Type 0
  Sees p none = Unit
  Sees p (some (q, _)) = R p q

  with_child-R :
      (p : Plan V) (v : Option (Plan V × Bool))
      → IsPreorder R
      → IsCongruent
      → ((c : Plan V) (b : Bool) → v ≡ some (c, b) → All (λ d. R d c) (children p))
      → Sees p (with_child p v)
  with_child-R p none pre cong child = tt
  with_child-R p (some (c, false)) pre cong child = pre.same p
  with_child-R p (some (c, true)) pre cong child = elim (Option-cases (set_child 0 c p)) [
    | inl no_child ↦ rw (no_child, with_child) (pre.same p)
    | inr (p', put) ↦ rw (put, with_child) (cong p c p' put (child c true refl))
  ]

  Sees-at :
      (p : Plan V) (v : Option (Plan V × Bool)) (q : Plan V) (b : Bool)
      → Sees p v
      → v ≡ some (q, b)
      → R p q
  Sees-at p v q b sees e = subst (λ w. Sees p w) e sees

  over_children-R :
      (visit : Plan V → Option (Plan V × Bool)) (p : Plan V)
      → IsPreorder R
      → IsCongruent
      → ((c : Plan V) → Sees c (visit c))
      → Sees p (over_children visit p (children p))
  over_children-R visit (scan i s f r) pre cong all = pre.same (scan i s f r)
  over_children-R visit (filter c p r) pre cong all =
      with_child-R _ (visit p) pre cong (λ q b e. (Sees-at p _ q b (all p) e, tt))
  over_children-R visit (project fs p s) pre cong all =
      with_child-R _ (visit p) pre cong (λ q b e. (Sees-at p _ q b (all p) e, tt))
  over_children-R visit (aggregate g a p s) pre cong all =
      with_child-R _ (visit p) pre cong (λ q b e. (Sees-at p _ q b (all p) e, tt))
  over_children-R visit (sort fs p) pre cong all =
      with_child-R _ (visit p) pre cong (λ q b e. (Sees-at p _ q b (all p) e, tt))
  over_children-R visit (limit o n p) pre cong all =
      with_child-R _ (visit p) pre cong (λ q b e. (Sees-at p _ q b (all p) e, tt))
  over_children-R visit (top_n n o fs p) pre cong all =
      with_child-R _ (visit p) pre cong (λ q b e. (Sees-at p _ q b (all p) e, tt))

  changed-R :
      (p q : Plan V) (v : Option (Plan V × Bool))
      → IsPreorder R
      → Sees q v
      → R p q
      → Sees p (changed v)
  changed-R p q none pre sees same = tt
  changed-R p q (some (r, b)) pre sees same = pre.after p q r same sees

  optimize_node-R :
      (fuel : ℕ) (rs : List (Rule V)) (p : Plan V)
      → IsPreorder R
      → IsCongruent
      → All Preserves rs
      → Sees p (optimize_node fuel rs p)
  unfolding optimize_node
  optimize_node-R zero rs p pre cong all = tt
  optimize_node-R (suc fuel) rs p pre cong all = elim (Option-cases (apply_first rs p)) [
    | inr (p', hit) ↦
        rw (hit, optimize_node)
          (changed-R p p' _ pre (optimize_node-R fuel rs p' pre cong all)
            (apply_first-R rs p p' all hit))
    | inl stop ↦
        rw (stop, optimize_node)
          (over_children-R _ p pre cong (λ c. optimize_node-R fuel rs c pre cong all))
  ]

  passes-R :
      (k fuel : ℕ) (rs : List (Rule V)) (p q : Plan V)
      → IsPreorder R
      → IsCongruent
      → All Preserves rs
      → passes k fuel rs p ≡ some q
      → R p q
  unfolding passes
  passes-R zero fuel rs p q pre cong all e = subst (λ x. R p x) (some-injective p q e) (pre.same p)
  passes-R (suc k) fuel rs p q pre cong all e =
      next (λ r h. passes-R k fuel rs r q pre cong all h) _ (optimize_node-R fuel rs p pre cong all)
        e
    where
      next :
          ((r : Plan V) → passes k fuel rs r ≡ some q → R r q)
          → (v : Option (Plan V × Bool)) → Sees p v
          → next_pass p (λ r. passes k fuel rs r) v ≡ some q
          → R p q
      next again none sees e = absurd (cc)
      next again (some (r, true)) sees e = pre.after p r q sees (again r e)
      next again (some (r, false)) sees e = subst (λ x. R p x) (some-injective p q e) (pre.same p)

  -- With rules that make plans lighter and relate what they rewrite, `Optimize` returns a plan that the given one is
  -- related to.
  pub optimize-R :
      (fuel : ℕ) (o : Optimizer V) (p : Plan V)
      → IsPreorder R
      → IsCongruent
      → All Shrinks o.rules
      → All Preserves o.rules
      → weight p < fuel
      → (q : Plan V) × (optimize fuel o p ≡ some q) × (R p q)
  unfolding optimize
  optimize-R fuel o p pre cong shrink all enough =
      let (q, ends, _) = passes-ends o.max_passes fuel o.rules p shrink enough in
      (
        q,
        rw (ends, optimize) (ground arith),
        passes-R o.max_passes fuel o.rules p q pre cong all ends,
      )
