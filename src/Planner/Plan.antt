-- ===== src/Planner/Plan.antt =====
-- Logical plans, pkg/coordination/planner/logical.go. The values of a query (`interface{}`) are a
-- parameter `V`: the planner passes them on and never looks into them. A pointer that may be nil is
-- an option. Row numbers, limits and offsets are int64.
use quidditch.Common.{
  ℕ, zero, suc, ◌-◌, ◌/◌, ◌^◌, String, Bool, Option, none, some, List, [], ◌∷◌, if◌then◌else◌, ltb,
  lt64, sub64, wrap64,
}

-- `ExpressionType`
pub data ExprKind : Type 0 where
  term match range bool wildcard prefix exists match_all : ExprKind

-- `Expression`, with its list of children.
mutual
  pub data Expr (V : Type 0) : Type 0 where
    expr : ExprKind → String → Option V → Exprs V → Expr V

  pub data Exprs (V : Type 0) : Type 0 where
    nil : Exprs V
    cons : Expr V → Exprs V → Exprs V

abbrev pub kind_of : {V : Type 0} → Expr V → ExprKind
kind_of (expr k f v cs) = k

pub record Field : Type 0 where
  pub name : String
  pub type_name : String

abbrev pub Schema : Type 0
Schema = List Field

pub record SortField : Type 0 where
  pub field : String
  pub descending : Bool

pub record Aggregation (V : Type 0) : Type 0 where
  pub name : String
  pub type_name : String
  pub field : String
  pub params : List (String × V)

-- The implementations of `LogicalPlan`; fields in the order of the structs.
pub data Plan (V : Type 0) : Type 0 where
  scan : String → List ℕ → Option (Expr V) → ℕ → Plan V
  filter : Option (Expr V) → Plan V → ℕ → Plan V
  project : List String → Plan V → Option Schema → Plan V
  aggregate : List String → List (Aggregation V) → Plan V → Option Schema → Plan V
  sort : List SortField → Plan V → Plan V
  limit : ℕ → ℕ → Plan V → Plan V
  top_n : ℕ → ℕ → List SortField → Plan V → Plan V

-- `x / 10` on int64, which rounds towards zero.
abbrev div10 : ℕ → ℕ
div10 x = if ltb x (2 ^ 63) then x / 10 else wrap64 (2 ^ 64 - (2 ^ 64 - x) / 10)

-- The rows that an offset and a limit leave of an estimate.
page : ℕ → ℕ → ℕ → ℕ
page offset n rows =
    if lt64 offset rows
    then (let remaining = sub64 rows offset in if lt64 remaining n then remaining else n)
    else 0

module _ {V : Type 0} where
  abbrev pub children : Plan V → List (Plan V)
  children (scan i s f r) = []
  children (filter c p r) = p ∷ []
  children (project fs p s) = p ∷ []
  children (aggregate g a p s) = p ∷ []
  children (sort fs p) = p ∷ []
  children (limit o n p) = p ∷ []
  children (top_n n o fs p) = p ∷ []

  -- `SetChild(index, child)`; `none` is its error.
  abbrev pub set_child : ℕ → Plan V → Plan V → Option (Plan V)
  set_child i q (scan ix s f r) = none
  set_child zero q (filter c p r) = some (filter c q r)
  set_child zero q (project fs p s) = some (project fs q s)
  set_child zero q (aggregate g a p s) = some (aggregate g a q s)
  set_child zero q (sort fs p) = some (sort fs q)
  set_child zero q (limit o n p) = some (limit o n q)
  set_child zero q (top_n n o fs p) = some (top_n n o fs q)
  set_child (suc i) q p = none

  unfoldable pub schema : Plan V → Option Schema
  schema (scan i s f r) = some []
  schema (filter c p r) = schema p
  schema (project fs p s) = s
  schema (aggregate g a p s) = s
  schema (sort fs p) = schema p
  schema (limit o n p) = schema p
  schema (top_n n o fs p) = schema p

  unfoldable pub cardinality : Plan V → ℕ
  unfolding page
  cardinality (scan i s f r) = r
  cardinality (filter c p r) = r
  cardinality (project fs p s) = cardinality p
  cardinality (aggregate g a p s) = div10 (cardinality p)
  cardinality (sort fs p) = cardinality p
  cardinality (limit o n p) = page o n (cardinality p)
  cardinality (top_n n o fs p) = page o n (cardinality p)
