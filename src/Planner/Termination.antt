-- ===== src/Planner/Termination.antt =====
-- The termination of the optimizer of pkg/coordination/planner/optimizer.go.
use quidditch.Common.{
  ℕ, zero, suc, ◌+◌, ◌≤◌, ◌<◌, ◌≡◌, refl, Bool, true, false, none, some, List, [], ◌∷◌, arith, All,
  Option-cases, Bool-cases, inl, inr, ◌⊎◌,
}
use quidditch.Planner.Plan.{
  Plan, scan, filter, project, aggregate, sort, limit, top_n, children, set_child,
}
use quidditch.Planner.Rules.{Rule}
use quidditch.Planner.Optimizer.{
  Optimizer, apply_first, with_child, over_children, optimize_node, passes, optimize,
}
use quidditch.Planner.Weight.{weight, Shrinks}

module _ {V : Type 0} where
  -- No rule applies at any node.
  abbrev pub IsNormal : List (Rule V) → Plan V → Type 0
  IsNormal rs (scan i s f r) = apply_first rs (scan i s f r) ≡ none
  IsNormal rs (filter c p r) = (apply_first rs (filter c p r) ≡ none) × IsNormal rs p
  IsNormal rs (project fs p s) = (apply_first rs (project fs p s) ≡ none) × IsNormal rs p
  IsNormal rs (aggregate g a p s) = (apply_first rs (aggregate g a p s) ≡ none) × IsNormal rs p
  IsNormal rs (sort fs p) = (apply_first rs (sort fs p) ≡ none) × IsNormal rs p
  IsNormal rs (limit o n p) = (apply_first rs (limit o n p) ≡ none) × IsNormal rs p
  IsNormal rs (top_n n o fs p) = (apply_first rs (top_n n o fs p) ≡ none) × IsNormal rs p

  apply_first-weight :
      (rs : List (Rule V)) (p q : Plan V)
      → All Shrinks rs
      → apply_first rs p ≡ some q
      → weight q < weight p
  unfolding apply_first
  apply_first-weight [] p q all e = absurd (cc)
  apply_first-weight (r ∷ rs) p q all e = elim (Option-cases (r.apply p)) [
    | inl pass ↦ apply_first-weight rs p q all.1 (ground arith)
    | inr (q', hit) ↦ all.0 p q (ground arith)
  ]

  -- What a visit of a node gives: no change at a plan where no rule applies, or a lighter plan.
  pub record Visited (rs : List (Rule V)) (p q : Plan V) (b : Bool) : Type 0 where
    pub unchanged : b ≡ false → (q ≡ p) × IsNormal rs p
    pub lighter : b ≡ true → weight q < weight p

  lift_child :
      (rs : List (Rule V)) (p q q' : Plan V) (b : Bool) (p' : Plan V)
      → Visited rs q q' b
      → set_child 0 q' p ≡ some p'
      → (weight q' < weight q → weight p' < weight p)
      → (IsNormal rs q → IsNormal rs p)
      → (o : Plan V) × (c : Bool) × (with_child p (some (q', b)) ≡ some (o, c)) × Visited rs p o c
  lift_child rs p q q' false p' v put mono norm = (
    p,
    false,
    refl,
    record { unchanged = λ _. (refl, norm (v.unchanged refl).1); lighter = λ e. absurd (cc) },
  )
  lift_child rs p q q' true p' v put mono norm = (
    p',
    true,
    rw (put, with_child),
    record { unchanged = λ e. absurd (cc); lighter = λ _. mono (v.lighter refl) },
  )

  abbrev Ends : ℕ → List (Rule V) → Plan V → Type 0
  Ends fuel rs p =
      (q : Plan V) × (b : Bool) × (optimize_node fuel rs p ≡ some (q, b)) × Visited rs p q b

  -- The children's turn: the visit of the child ends, so does the visit of the node.
  over_children-Ends :
      (fuel : ℕ) (rs : List (Rule V)) (p : Plan V)
      → apply_first rs p ≡ none
      → ((q : Plan V) → weight q < weight p → Ends fuel rs q)
      → (q : Plan V) × (b : Bool) × (over_children (optimize_node fuel rs) p (children p)
          ≡ some (q, b))
        × Visited rs p q b
  over_children-Ends fuel rs (scan i s f r) stop ih = (
    scan i s f r,
    false,
    refl,
    record { unchanged = λ _. (refl, stop); lighter = λ e. absurd (cc) },
  )
  over_children-Ends fuel rs (filter c p r) stop ih =
      let (q, b, ends, v) = ih p (omega arith) in
      rw ends (lift_child rs (filter c p r) p q b _ v refl (λ h. omega arith) (λ n. (stop, n)))
  over_children-Ends fuel rs (project fs p s) stop ih =
      let (q, b, ends, v) = ih p (omega arith) in
      rw ends (lift_child rs (project fs p s) p q b _ v refl (λ h. omega arith) (λ n. (stop, n)))
  over_children-Ends fuel rs (aggregate g a p s) stop ih =
      let (q, b, ends, v) = ih p (omega arith) in
      rw ends (lift_child rs (aggregate g a p s) p q b _ v refl (λ h. omega arith) (λ n. (stop, n)))
  over_children-Ends fuel rs (sort fs p) stop ih =
      let (q, b, ends, v) = ih p (omega arith) in
      rw ends (lift_child rs (sort fs p) p q b _ v refl (λ h. omega arith) (λ n. (stop, n)))
  over_children-Ends fuel rs (limit o n p) stop ih =
      let (q, b, ends, v) = ih p (omega arith) in
      rw ends (lift_child rs (limit o n p) p q b _ v refl (λ h. omega arith) (λ n. (stop, n)))
  over_children-Ends fuel rs (top_n n o fs p) stop ih =
      let (q, b, ends, v) = ih p (omega arith) in
      rw ends (lift_child rs (top_n n o fs p) p q b _ v refl (λ h. omega arith) (λ n. (stop, n)))

  pub optimize_node-Ends :
      (fuel : ℕ) (rs : List (Rule V)) (p : Plan V)
      → All Shrinks rs
      → weight p < fuel
      → Ends fuel rs p
  unfolding optimize_node
  optimize_node-Ends zero rs p all enough = absurd (omega arith)
  optimize_node-Ends (suc fuel) rs p all enough = elim (Option-cases (apply_first rs p)) [
    | inr (q, hit) ↦
        let less = apply_first-weight rs p q all hit in
        let (q', b, ends, v) = optimize_node-Ends fuel rs q all (omega arith) in
        (
          q',
          true,
          rw (hit, optimize_node) (rw ends),
          record { unchanged = λ e. absurd (cc); lighter = λ _. still rs p q q' b v less },
        )
    | inl stop ↦
        let (q, b, ends, v) =
          over_children-Ends fuel rs p stop
            (λ q less. optimize_node-Ends fuel rs q all (omega arith)) in
        (q, b, rw (stop, optimize_node) ends, v)
  ]
    where
      still :
          (rs : List (Rule V)) (p q q' : Plan V) (b : Bool)
          → Visited rs q q' b
          → weight q < weight p
          → weight q' < weight p
      still rs p q q' true v less = omega (arith, v.lighter refl)
      still rs p q q' false v less = rw (v.unchanged refl).0 less

  -- After the passes: no rule applies any more, or every pass made the plan lighter.
  pub passes-ends :
      (k fuel : ℕ) (rs : List (Rule V)) (p : Plan V)
      → All Shrinks rs
      → weight p < fuel
      → (q : Plan V) × (passes k fuel rs p ≡ some q) × (IsNormal rs q ⊎ (weight q + k ≤ weight p))
  unfolding passes
  passes-ends zero fuel rs p all enough = (p, refl, inr (omega arith))
  passes-ends (suc k) fuel rs p all enough =
      let (q, b, ends, v) = optimize_node-Ends fuel rs p all enough in
      elim (Bool-cases b) [
        | inr same ↦ (p, rw (ends, same), inl (v.unchanged same).1)
        | inl differs ↦
            let less = v.lighter differs in
            let (r, does, state) = passes-ends k fuel rs q all (omega arith) in
            (r, rw (ends, differs) does, slower rs p q r k less state)
      ]
    where
      slower :
          (rs : List (Rule V)) (p q r : Plan V) (k : ℕ)
          → weight q < weight p
          → (IsNormal rs r ⊎ (weight r + k ≤ weight q))
          → (IsNormal rs r ⊎ (weight r + suc k ≤ weight p))
      slower rs p q r k less (inl normal) = inl normal
      slower rs p q r k less (inr light) = inr (omega arith)

  -- With rules that make plans lighter, the default ones among them, `Optimize` returns a plan: one
  -- at which no rule applies anywhere, or, when it has run out of passes first, one that is lighter
  -- by at least the number of passes. So a plan of weight at most `MaxPasses` ends with no rule
  -- applicable. Fuel above the plan's weight is enough.
  pub optimize-ends :
      (fuel : ℕ) (o : Optimizer V) (p : Plan V)
      → All Shrinks o.rules
      → weight p < fuel
      → (q : Plan V) × (optimize fuel o p ≡ some q)
        × (IsNormal o.rules q ⊎ (weight q + o.max_passes ≤ weight p))
  unfolding optimize
  optimize-ends fuel o p all enough =
      let (q, ends, state) = passes-ends o.max_passes fuel o.rules p all enough in
      (q, rw (ends, optimize) (ground arith), state)
