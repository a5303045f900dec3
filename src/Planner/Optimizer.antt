-- ===== src/Planner/Optimizer.antt =====
-- `Optimizer` of pkg/coordination/planner/optimizer.go. `SetChild` writes into the node; the nodes
-- of a plan form a tree, so the node with its new child is the result.
use quidditch.Common.{
  ℕ, zero, suc, Bool, true, false, Option, none, some, List, [], ◌∷◌, ◌++◌, if◌then◌else◌,
}
use quidditch.Planner.Plan.{Plan, children, set_child}
use quidditch.Planner.Rules.{Rule}

pub record Optimizer (V : Type 0) : Type 0 where
  pub rules : List (Rule V)
  pub max_passes : ℕ
  pub cost_based : Bool

module _ {V : Type 0} where
  unfoldable pub new_optimizer : Optimizer V
  new_optimizer = record { rules = []; max_passes = 10; cost_based = true }

  -- `RuleSet.AddRule`
  unfoldable pub add_rule : Optimizer V → Rule V → Optimizer V
  add_rule o r = record o { rules = o.rules ++ r ∷ [] }

  -- The first loop of `optimizeNode`: the first rule that applies.
  unfoldable pub apply_first : List (Rule V) → Plan V → Option (Plan V)
  apply_first [] p = none
  apply_first (r ∷ rs) p = elim (r.apply p) [ some q ↦ some q | none ↦ apply_first rs p ]

  -- A node whose child has been optimized: the child is put back if it changed.
  abbrev pub with_child : Plan V → Option (Plan V × Bool) → Option (Plan V × Bool)
  with_child p none = none
  with_child p (some (q, false)) = some (p, false)
  with_child p (some (q, true)) = elim (set_child 0 q p) [
    | some p' ↦ some (p', true)
    | none ↦ some (p, true)
  ]

  -- The loop over the children; every node has one child at most.
  abbrev pub over_children :
      (Plan V → Option (Plan V × Bool)) → Plan V → List (Plan V) → Option (Plan V × Bool)
  over_children visit p [] = some (p, false)
  over_children visit p (q ∷ _) = with_child p (visit q)

  abbrev pub changed : Option (Plan V × Bool) → Option (Plan V × Bool)
  changed none = none
  changed (some (p, _)) = some (p, true)

  -- `optimizeNode`, on fuel; `none` means that the fuel ran out.
  unfoldable pub optimize_node : ℕ → List (Rule V) → Plan V → Option (Plan V × Bool)
  optimize_node zero rs p = none
  optimize_node (suc fuel) rs p = elim (apply_first rs p) [
    | some q ↦ changed (optimize_node fuel rs q)
    | none ↦ over_children (optimize_node fuel rs) p (children p)
  ]

  abbrev pub next_pass :
      Plan V → (Plan V → Option (Plan V)) → Option (Plan V × Bool) → Option (Plan V)
  next_pass p again none = none
  next_pass p again (some (q, true)) = again q
  next_pass p again (some (q, false)) = some p

  -- The loop of `Optimize`: `k` passes are left.
  unfoldable pub passes : ℕ → ℕ → List (Rule V) → Plan V → Option (Plan V)
  passes zero fuel rs p = some p
  passes (suc k) fuel rs p = next_pass p (λ q. passes k fuel rs q) (optimize_node fuel rs p)

  -- `applyCostBasedOptimization` returns its plan as it is.
  abbrev pub apply_cost_based_optimization : Plan V → Plan V
  apply_cost_based_optimization p = p

  unfoldable pub optimize : ℕ → Optimizer V → Plan V → Option (Plan V)
  optimize fuel o p = elim (passes o.max_passes fuel o.rules p) [
    | none ↦ none
    | some q ↦ some (if o.cost_based then apply_cost_based_optimization q else q)
  ]
