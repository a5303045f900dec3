-- ===== src/Planner/Convert.antt =====
-- `Converter` of pkg/coordination/planner/converter.go: from queries and search requests to logical plans.
use quidditch.Common.{String, Option, none, some, List, [], ◌∷◌, str_eq, if◌then◌else◌, ◌>>=◌}
use quidditch.Json.{Json, null, obj, Items, stop, item, Fields, end, entry}
use quidditch.Query.Ast.{
  Query, match, match_phrase, multi_match, query_string, term, terms, range, exists, prefix,
  wildcard, fuzzy, bool_query, match_all, expression, wasm_udf, Queries,
}
use quidditch.Query.Ast as Dsl
use quidditch.Planner.Plan as Logical
use quidditch.Planner.Plan.{
  Expr, Exprs, expr, nil, cons, SortField, Aggregation, Plan, scan, project, aggregate, sort, limit,
}
use quidditch.Planner.Values.{Value, json, Condition, Conditions, value_of, marker, text}

infixr 65 ◌+++◌
abbrev pub ◌+++◌ : Conditions → Conditions → Conditions
nil +++ es = es
cons d ds +++ es = cons d (ds +++ es)

abbrev pub leaf : Logical.ExprKind → String → Option Value → Condition
leaf k f v = expr k f v nil

abbrev pub any_of : Conditions → Condition
any_of es = expr Logical.bool "" none es

abbrev term_conditions : String → Items → Conditions
term_conditions f stop = nil
term_conditions f (item v xs) = cons (leaf Logical.term f (value_of v)) (term_conditions f xs)

abbrev match_conditions : String → List String → Conditions
match_conditions q [] = nil
match_conditions q (f ∷ fs) = cons (leaf Logical.match f (text q)) (match_conditions q fs)

-- An entry of `rangeParams`, where the bound is not nil.
abbrev bound : String → Json → Fields → Fields
bound k null fs = fs
bound k v fs = entry k v fs

abbrev range_params : Json → Json → Json → Json → Fields
range_params gt gte lt lte = bound "gt" gt (bound "gte" gte (bound "lt" lt (bound "lte" lte end)))

-- The field that stands for a query string.
abbrev string_field : String → List String → String
string_field d [] = if str_eq d "" then "_all" else d
string_field d (f ∷ fs) =
    let first = if str_eq f "" then "_all" else f in if str_eq d "" then first else d

abbrev pub should_part : Conditions → Conditions
should_part nil = nil
should_part (cons e es) = cons (any_of (cons e es)) nil

abbrev pub negated : Condition → Condition
negated e = expr Logical.bool "" marker (cons e nil)

abbrev pub negations : Conditions → Conditions
negations nil = nil
negations (cons e es) = cons (negated e) (negations es)

-- One clause is returned directly.
abbrev pub combined : Conditions → Condition
combined (cons e nil) = e
combined nil = any_of nil
combined (cons e (cons e' es)) = any_of (cons e (cons e' es))

unfoldable pub bool_condition :
    Option Conditions → Option Conditions → Option Conditions → Option Conditions → Option Condition
bool_condition must filter should must_not = must >>= λ ms. filter >>= λ fs. should >>= λ ss.
    must_not >>= λ ns. some (combined (ms +++ (fs +++ (should_part ss +++ negations ns))))

-- `ConvertQuery`; `none` is the error of an unsupported type.
unfoldable mutual
  pub convert : Query → Option Condition
  convert (match_all b) = some (leaf Logical.match_all "" none)
  convert (term f v b) = some (leaf Logical.term f (value_of v))
  convert (terms f xs) = some (any_of (term_conditions f xs))
  convert (range f gt gte lt lte b) =
      some (leaf Logical.range f (some (json (obj (range_params gt gte lt lte)))))
  convert (exists f) = some (leaf Logical.exists f none)
  convert (prefix f v) = some (leaf Logical.prefix f (text v))
  convert (wildcard f v) = some (leaf Logical.wildcard f (text v))
  convert (match f q op b a) = some (leaf Logical.match f (text q))
  convert (match_phrase f q n) = some (leaf Logical.match f (text q))
  convert (bool_query m sh mn f n s) =
      bool_condition (convert_all m) (convert_all f) (convert_all sh) (convert_all mn)
  convert (multi_match q fs t) = some (any_of (match_conditions q fs))
  convert (fuzzy f v z) = some (leaf Logical.wildcard f (text v))
  convert (query_string q d fs) = some (leaf Logical.match (string_field d fs) (text q))
  convert (expression e b) = none
  convert (wasm_udf n v ps) = none

  -- The loops over clauses.
  pub convert_all : Queries → Option Conditions
  convert_all Dsl.nil = some nil
  convert_all (Dsl.cons q qs) = convert q >>= λ e. convert_all qs >>= λ es. some (cons e es)
