-- ===== src/Planner/Execution.antt =====
-- What pkg/coordination/planner/execution.go makes of an expression: the query that goes to the data nodes, and the
-- filter that the coordination node applies to rows.
use quidditch.Common.{
  ℕ, String, Bool, true, false, not, Option, none, some, List, [], ◌∷◌, if◌then◌else◌, ◌>>=◌,
}
use quidditch.Json.{Json, null, arr, str, obj, Items, stop, item, Fields, end, get, single}
use quidditch.Planner.Plan as Logical
use quidditch.Planner.Plan.{expr, nil, cons}
use quidditch.Planner.Values.{Value, json, int, Condition, Conditions, is_marker}

module _ (of_int : ℕ → Json) where
  abbrev pub json_of : Option Value → Json
  json_of none = null
  json_of (some (json v)) = v
  json_of (some (int n)) = of_int n

  abbrev pub one_field : String → String → Json → Json
  one_field kind f v = obj (single kind (obj (single f v)))

  abbrev pub match_all_map : Json
  match_all_map = obj (single "match_all" (obj end))

  -- The array of the clauses under `must_not` or `should`; no entry for no clauses.
  abbrev pub bool_map : String → Items → Json
  bool_map k stop = obj (single "bool" (obj end))
  bool_map k (item x xs) = obj (single "bool" (obj (single k (arr (item x xs)))))

  abbrev pub is_negation : Option Value → Conditions → Bool
  is_negation v (cons e nil) = is_marker v
  is_negation v nil = false
  is_negation v (cons e (cons e' es)) = false

  -- `expressionToMap`
  unfoldable mutual
    pub to_map : Condition → Json
    to_map (expr Logical.match_all f v cs) = match_all_map
    to_map (expr Logical.term f v cs) = one_field "term" f (json_of v)
    to_map (expr Logical.match f v cs) = one_field "match" f (json_of v)
    to_map (expr Logical.range f v cs) = one_field "range" f (json_of v)
    to_map (expr Logical.exists f v cs) = one_field "exists" "field" (str f)
    to_map (expr Logical.prefix f v cs) = one_field "prefix" f (json_of v)
    to_map (expr Logical.wildcard f v cs) = one_field "wildcard" f (json_of v)
    to_map (expr Logical.bool f v cs) =
        let ms = to_maps cs in
        if is_negation v cs then bool_map "must_not" ms else bool_map "should" ms

    pub to_maps : Conditions → Items
    to_maps nil = stop
    to_maps (cons e es) = item (to_map e) (to_maps es)

abbrev pub is_some : Option Json → Bool
is_some none = false
is_some (some w) = true

abbrev pub negation : Option Bool → Option Bool
negation b = b >>= λ t. some (not t)

-- The result of a round of the loop over the children, before the rounds that follow.
abbrev pub or_else : Option Bool → Option Bool → Option Bool
or_else none rest = none
or_else (some true) rest = some true
or_else (some false) rest = rest

abbrev keep : Bool → Fields → List Fields → List Fields
keep b row rows = if b then row ∷ rows else rows

-- `==` on two interface values; `none` is its panic on values that cannot be compared.
module _ (same : Json → Option Value → Option Bool) where
  -- `value, exists := doc[expr.Field]`, compared.
  abbrev pub equals_field : Option Json → Option Value → Option Bool
  equals_field none v = some false
  equals_field (some w) v = same w v

  -- `evaluateExpression`
  unfoldable mutual
    pub evaluate : Fields → Condition → Option Bool
    evaluate doc (expr Logical.match_all f v cs) = some true
    evaluate doc (expr Logical.term f v cs) = equals_field (get f doc) v
    evaluate doc (expr Logical.exists f v cs) = some (is_some (get f doc))
    evaluate doc (expr Logical.bool f v nil) = some false
    evaluate doc (expr Logical.bool f v (cons e es)) =
        let first = evaluate doc e in
        let any = or_else first (evaluate_any doc es) in if is_marker v then negation first else any
    evaluate doc (expr Logical.match f v cs) = some true
    evaluate doc (expr Logical.range f v cs) = some true
    evaluate doc (expr Logical.prefix f v cs) = some true
    evaluate doc (expr Logical.wildcard f v cs) = some true

    pub evaluate_any : Fields → Conditions → Option Bool
    evaluate_any doc nil = some false
    evaluate_any doc (cons e es) = or_else (evaluate doc e) (evaluate_any doc es)

  unfoldable pub kept : Condition → List Fields → Option (List Fields)
  kept c [] = some []
  kept c (row ∷ rows) = evaluate row c >>= λ b. kept c rows >>= λ rest. some (keep b row rest)

  -- `applyFilterToRows`
  unfoldable pub apply_filter : Option Condition → List Fields → Option (List Fields)
  apply_filter none rows = some rows
  apply_filter (some c) rows = kept c rows
