-- ===== src/Planner/Meaning.antt =====
-- What plans compute, over an engine that is not part of the plan, before and after the optimizer of
-- pkg/coordination/planner/optimizer.go.
use quidditch.Common.{ℕ, ◌≡◌, String, Bool, true, Option, none, some, List, [], ◌∷◌, if◌then◌else◌}
use quidditch.Planner.Plan.{
  match_all, Expr, Exprs, expr, Aggregation, SortField, Plan, scan, filter, project, aggregate,
  sort, limit, top_n,
}
use quidditch.Planner.Optimizer.{Optimizer}
use quidditch.Planner.Plain.{IsPlain, IsNoLarger}

-- The search engine: its rows, which rows an expression holds of, what a projection leaves of a row, and the operations
-- on lists of rows.
pub record Engine (V : Type 0) : Type 1 where
  pub Row : Type 0
  pub rows_of : String → List ℕ → List Row
  pub holds : Expr V → Row → Bool
  pub pick : List String → Row → Row
  pub summarize : List String → List (Aggregation V) → List Row → List Row
  pub order : List SortField → List Row → List Row
  pub page : ℕ → ℕ → List Row → List Row

-- `match_all` holds of every row.
abbrev pub AcceptsAll : {V : Type 0} → Engine V → Type 0
AcceptsAll {V = V} e =
    (f : String) (v : Option V) (cs : Exprs V) (r : e.Row)
    → e.holds (expr match_all f v cs) r ≡ true

abbrev pub keep : {A : Type 0} → (A → Bool) → List A → List A
keep p [] = []
keep p (x ∷ xs) = let rest = keep p xs in if p x then x ∷ rest else rest

abbrev pub each : {A : Type 0} → (A → A) → List A → List A
each f [] = []
each f (x ∷ xs) = f x ∷ each f xs

module _ {V : Type 0} (e : Engine V) where
  abbrev filtered : Option (Expr V) → List e.Row → List e.Row
  filtered none rows = rows
  filtered (some c) rows = keep (e.holds c) rows

  -- The rows of a plan.
  abbrev pub eval : Plan V → List e.Row
  eval (scan i s f r) = filtered f (e.rows_of i s)
  eval (filter c p r) = filtered c (eval p)
  eval (project fs p s) = each (e.pick fs) (eval p)
  eval (aggregate g a p s) = e.summarize g a (eval p)
  eval (sort fs p) = e.order fs (eval p)
  eval (limit o n p) = e.page o n (eval p)
  eval (top_n n o fs p) = e.page o n (e.order fs (eval p))

  -- The second plan is no larger, and computes the rows of the first if that is plain.
  pub record Keeps (p q : Plan V) : Type 0 where
    pub smaller : IsNoLarger p q
    pub rows : IsPlain p → eval q ≡ eval p
