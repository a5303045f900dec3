-- ===== src/Expression/Parser.antt =====
-- `Parser` of pkg/coordination/expressions/parser.go, on decoded JSON.
use Prim.Native.Char.{code}
use quidditch.Common.{
  ℕ, suc, String, true, false, Option, none, some, [], ◌∷◌, ◌==◌, ◌&&◌, ◌||◌, not, str_eq,
  if◌then◌else◌,
}
use quidditch.Common.Results.{Result, ok, err, ◌>>=◌, within}
use quidditch.Json.{
  Json, null, bool, num, str, arr, obj, Items, stop, item, Fields, end, entry, get, as_string,
}
use quidditch.Expression.Ast.{
  Bytes, type_bool, type_int64, type_float64, type_string, is_comparison, is_logical, bool_value,
  int64_value, float64_value, string_value, Expr, Exprs, const, field, binary, unary, ternary, call,
  nil, cons, data_type,
}

-- What `strconv` and the conversion of a float64 to an int give; the decimal syntax of numbers is not modelled.
pub record Numbers : Type 0 where
  pub parse_int : String → Option ℕ
  pub parse_float : String → Option ℕ
  pub to_int : ℕ → ℕ

-- The bytes of a Go string.
abbrev pub codes : String → Bytes
codes String.[] = []
codes (String.◌∷◌ c s) = code c ∷ codes s

pub data ParseError : Type 0 where
  unrecognized bad_constant not_object bad_ternary : ParseError
  unknown_operator unknown_function missing_args : String → ParseError
  missing_operands missing_operand bad_argument : ℕ → ParseError
  in_left in_right in_operand in_condition in_true in_false : ParseError → ParseError
  in_argument : ℕ → ParseError → ParseError

unfoldable pub binary_operator : String → ℕ
binary_operator s =
    if str_eq s "+"
    then 1
    else if str_eq s "-"
    then 2
    else if str_eq s "*"
    then 3
    else if str_eq s "/"
    then 4
    else if str_eq s "%"
    then 5
    else if str_eq s "pow" || str_eq s "**"
    then 6
    else if str_eq s "==" || str_eq s "eq"
    then 7
    else if str_eq s "!=" || str_eq s "ne"
    then 8
    else if str_eq s "<" || str_eq s "lt"
    then 9
    else if str_eq s "<=" || str_eq s "lte" || str_eq s "le"
    then 10
    else if str_eq s ">" || str_eq s "gt"
    then 11
    else if str_eq s ">=" || str_eq s "gte" || str_eq s "ge"
    then 12
    else if str_eq s "&&" || str_eq s "and"
    then 13
    else if str_eq s "||" || str_eq s "or"
    then 14
    else 0

unfoldable pub unary_operator : String → ℕ
unary_operator s =
    if str_eq s "-" || str_eq s "neg" then 0 else if str_eq s "!" || str_eq s "not" then 1 else 0

unfoldable pub function_name : String → ℕ
function_name s =
    if str_eq s "abs"
    then 1
    else if str_eq s "sqrt"
    then 2
    else if str_eq s "min"
    then 3
    else if str_eq s "max"
    then 4
    else if str_eq s "floor"
    then 5
    else if str_eq s "ceil"
    then 6
    else if str_eq s "round"
    then 7
    else if str_eq s "log" || str_eq s "ln"
    then 8
    else if str_eq s "log10"
    then 9
    else if str_eq s "exp"
    then 10
    else if str_eq s "pow"
    then 11
    else if str_eq s "sin"
    then 12
    else if str_eq s "cos"
    then 13
    else if str_eq s "tan"
    then 14
    else 0

unfoldable pub binary_result : ℕ → ℕ → ℕ → ℕ
binary_result op l r =
    if is_comparison op || is_logical op
    then type_bool
    else if l == type_float64 || r == type_float64
    then type_float64
    else if l == type_int64 || r == type_int64
    then type_int64
    else type_float64

abbrev pub first_type : Exprs → ℕ
first_type nil = type_float64
first_type (cons e es) = data_type e

unfoldable pub function_result : ℕ → Exprs → ℕ
function_result f es =
    if f == 3 || f == 4
    then first_type es
    else if f == 5 || (f == 6 || f == 7)
    then type_int64
    else type_float64

abbrev pub field_type : Option String → ℕ
field_type none = type_float64
field_type (some s) =
    if str_eq s "bool" || str_eq s "boolean"
    then type_bool
    else if str_eq s "int" || str_eq s "int64" || str_eq s "integer"
    then type_int64
    else if str_eq s "float" || str_eq s "float64" || str_eq s "double"
    then type_float64
    else if str_eq s "string" || str_eq s "text"
    then type_string
    else type_float64

-- The result of a `Parse` of a value that the source asserts to be an object first.
abbrev pub Parsed : Type 0
Parsed = Option (Result ParseError Expr)

abbrev pub if_object : Json → Result ParseError Expr → Parsed
if_object (obj fs) r = some r
if_object _ r = none

abbrev pub if_argument : ℕ → Json → Result ParseError Expr → Result ParseError Expr
if_argument i (obj fs) r = within (in_argument i) r
if_argument i _ r = err (bad_argument i)

unfoldable pub binary_op : ℕ → Parsed → Parsed → Result ParseError Expr
binary_op op (some l) (some r) = within in_left l >>= λ x.
    within in_right r >>= λ y. ok (binary op x y (binary_result op (data_type x) (data_type y)))
binary_op op none r = err (missing_operands op)
binary_op op (some l) none = err (missing_operands op)

unfoldable pub unary_op : ℕ → Parsed → Result ParseError Expr
unary_op op none = err (missing_operand op)
unary_op op (some r) =
    within in_operand r >>= λ x. ok (unary op x (if op == 1 then type_bool else data_type x))

-- A constant of a string, given what `strconv` parses of it.
abbrev pub string_const : String → Option ℕ → Option ℕ → Expr
string_const s (some n) f = const (int64_value n) type_int64
string_const s none (some n) = const (float64_value n) type_float64
string_const s none none = const (string_value (codes s)) type_string

module _ (nb : Numbers) where
  -- Of the types of the switch, a decoded JSON value has bool, float64 and string.
  unfoldable pub parse_const : Json → Result ParseError Expr
  parse_const (bool b) = ok (const (bool_value b) type_bool)
  parse_const (num n) = ok (const (float64_value n) type_float64)
  parse_const (str s) = ok (string_const s (nb.parse_int s) (nb.parse_float s))
  parse_const null = err bad_constant
  parse_const (arr xs) = err bad_constant
  parse_const (obj fs) = err bad_constant

-- `parseOperator`, given what the operands parse to.
unfoldable pub parse_operator : String → Parsed → Parsed → Parsed → Result ParseError Expr
parse_operator s l r o =
    if not (binary_operator s == 0)
    then binary_op (binary_operator s) l r
    else if not (unary_operator s == 0) && not (unary_operator s == 1)
    then err (unknown_operator s)
    else unary_op (unary_operator s) o

unfoldable pub parse_function : String → Option (Result ParseError Exprs) → Result ParseError Expr
parse_function s args = if function_name s == 0 then err (unknown_function s) else elim args [
  | none ↦ err (missing_args s)
  | some r ↦ r >>= λ es. ok (call (function_name s) es (function_result (function_name s) es))
]

module _ (nb : Numbers) where
  -- `Parse`, given what the parts of the map parse to.
  unfoldable pub parse_map :
      Fields → Parsed → Parsed → Parsed → Option (Result ParseError Exprs) → Result ParseError Expr
  parse_map fs l r o args = elim (as_string (get "op" fs)) [
    | some s ↦ parse_operator s l r o
    | none ↦ elim (get "const" fs) [
      | some v ↦ parse_const nb v
      | none ↦ elim (as_string (get "field" fs)) [
        | some p ↦ ok (field (codes p) (field_type (as_string (get "type" fs))))
        | none ↦ elim (as_string (get "func" fs)) [
          | some s ↦ parse_function s args
          | none ↦ err unrecognized
        ]
      ]
    ]
  ]

  unfoldable mutual
    pub parse_value : Json → Result ParseError Expr
    parse_value (obj fs) =
        parse_map fs (operand "left" fs) (operand "right" fs) (operand "operand" fs) (arguments fs)
    parse_value null = err not_object
    parse_value (bool b) = err not_object
    parse_value (num n) = err not_object
    parse_value (str s) = err not_object
    parse_value (arr xs) = err not_object

    -- `exprMap[k].(map[string]interface{})`, parsed.
    pub operand : String → Fields → Parsed
    operand k end = none
    operand k (entry j v fs) = elim (str_eq j k) [
      | true ↦ if_object v (parse_value v)
      | false ↦ operand k fs
    ]

    -- `exprMap["args"].([]interface{})`, each element parsed.
    pub arguments : Fields → Option (Result ParseError Exprs)
    arguments end = none
    arguments (entry j v fs) = elim (str_eq j "args") [ true ↦ array_of v | false ↦ arguments fs ]

    pub array_of : Json → Option (Result ParseError Exprs)
    array_of (arr xs) = some (parse_items 0 xs)
    array_of null = none
    array_of (bool b) = none
    array_of (num n) = none
    array_of (str s) = none
    array_of (obj fs) = none

    -- The loop over the arguments, from index `i` on.
    pub parse_items : ℕ → Items → Result ParseError Exprs
    parse_items i stop = ok nil
    parse_items i (item x xs) =
        if_argument i x (parse_value x) >>= λ e. parse_items (suc i) xs >>= λ es. ok (cons e es)

  -- `Parse`; the callers pass maps that are not nil.
  abbrev pub parse : Fields → Result ParseError Expr
  parse fs = parse_value (obj fs)

-- `ParseTernary`, which `Parse` does not call.
unfoldable pub ternary_op : Parsed → Parsed → Parsed → Result ParseError Expr
ternary_op (some c) (some a) (some b) = within in_condition c >>= λ x. within in_true a >>= λ y.
    within in_false b >>= λ z.
    let t =
      if not (data_type y == data_type z)
        && (data_type y == type_float64 || data_type z == type_float64)
      then type_float64
      else data_type y in
    ok (ternary x y z t)
ternary_op none a b = err bad_ternary
ternary_op (some c) none b = err bad_ternary
ternary_op (some c) (some a) none = err bad_ternary

unfoldable pub parse_ternary : Numbers → Fields → Result ParseError Expr
parse_ternary nb fs =
    ternary_op (operand nb "condition" fs) (operand nb "true" fs) (operand nb "false" fs)
