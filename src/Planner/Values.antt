-- ===== src/Planner/Values.antt =====
-- The dynamic values of expressions and of the parameters of aggregations in pkg/coordination/planner: decoded
-- JSON, or an int. A nil interface is `none`.
use quidditch.Common.{ℕ, String, Bool, false, Option, none, some, str_eq}
use quidditch.Json.{Json, null, bool, num, str, arr, obj}
use quidditch.Planner.Plan.{Expr, Exprs}

pub data Value : Type 0 where
  json : Json → Value
  int : ℕ → Value

abbrev pub Condition : Type 0
Condition = Expr Value

abbrev pub Conditions : Type 0
Conditions = Exprs Value

abbrev pub value_of : Json → Option Value
value_of null = none
value_of (bool b) = some (json (bool b))
value_of (num n) = some (json (num n))
value_of (str s) = some (json (str s))
value_of (arr xs) = some (json (arr xs))
value_of (obj fs) = some (json (obj fs))

-- `expr.Value == "must_not"`
abbrev pub is_marker : Option Value → Bool
is_marker (some (json (str s))) = str_eq s "must_not"
is_marker _ = false

abbrev pub marker : Option Value
marker = some (json (str "must_not"))

abbrev pub text : String → Option Value
text s = some (json (str s))
