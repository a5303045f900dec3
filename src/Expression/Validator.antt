-- ===== src/Expression/Validator.antt =====
-- `Validator` of pkg/coordination/expressions/validator.go; `none` is a nil error. Functions and types
-- are named by their numbers in ast.go.
use quidditch.Common.{
  ℕ, suc, Bool, true, false, Option, none, some, [], ◌∷◌, ◌==◌, leb, ◌&&◌, ◌||◌, not, if◌then◌else◌,
}
use quidditch.Expression.Ast.{
  Bytes, type_unknown, type_bool, type_int64, type_float64, type_string, is_arithmetic,
  is_comparison, is_logical, Value, nil_value, bool_value, int64_value, float64_value, string_value,
  Expr, Exprs, nil_expr, const, field, binary, unary, ternary, call, nil, cons, data_type, count,
}

-- Where in a node the error is, and what it is.
pub data Invalid : Type 0 where
  nil_expression nil_constant empty_path unknown_field_type not_numeric not_bool incompatible
        bad_result bad_arity :
      Invalid
  mismatch unknown_type : ℕ → Invalid
  in_left in_right in_operand in_condition in_true in_false : Invalid → Invalid
  in_argument : ℕ → Invalid → Invalid

abbrev pub is_numeric : ℕ → Bool
is_numeric t = (t == type_int64) || (t == type_float64)

abbrev pub is_compatible : ℕ → ℕ → Bool
is_compatible t u = (t == u) || (is_numeric t && is_numeric u)

-- `if err := ...; err != nil { return wrap(err) }`
abbrev pub step : (Invalid → Invalid) → Option Invalid → Option Invalid → Option Invalid
step wrap (some e) rest = some (wrap e)
step wrap none rest = rest

-- `if !condition { return error }`
abbrev pub demand : Bool → Invalid → Option Invalid → Option Invalid
demand true e rest = rest
demand false e rest = some e

abbrev pub is_nil : Value → Bool
is_nil nil_value = true
is_nil _ = false

-- Has the value the dynamic type that the data type declares?
abbrev pub has_type : ℕ → Value → Bool
has_type t (bool_value _) = t == type_bool
has_type t (int64_value _) = t == type_int64
has_type t (float64_value _) = t == type_float64
has_type t (string_value _) = t == type_string
has_type t _ = false

abbrev pub is_known : ℕ → Bool
is_known t = (t == type_bool) || ((t == type_int64) || ((t == type_float64) || (t == type_string)))

unfoldable pub validate_const : Value → ℕ → Option Invalid
validate_const v t =
    demand (not (is_nil v)) nil_constant
      (demand (is_known t) (unknown_type t) (demand (has_type t v) (mismatch t) none))

abbrev is_empty : Bytes → Bool
is_empty [] = true
is_empty (_ ∷ _) = false

unfoldable pub validate_field : Bytes → ℕ → Option Invalid
validate_field p t =
    demand (not (is_empty p)) empty_path (demand (not (t == type_unknown)) unknown_field_type none)

-- The checks of `validateBinaryOp` after the operands: none for other operators.
unfoldable pub binary_types : ℕ → ℕ → ℕ → ℕ → Option Invalid
binary_types op l r t =
    let logical =
      if is_logical op
      then demand (l == type_bool) not_bool
          (demand (r == type_bool) not_bool (demand (t == type_bool) bad_result none))
      else none in
    let comparison =
      if is_comparison op
      then demand (is_compatible l r) incompatible (demand (t == type_bool) bad_result logical)
      else logical in
    if is_arithmetic op
    then demand (is_numeric l) not_numeric
        (demand (is_numeric r) not_numeric (demand (is_numeric t) bad_result comparison))
    else comparison

unfoldable pub unary_types : ℕ → ℕ → ℕ → Option Invalid
unary_types op e t =
    if op == 0
    then demand (is_numeric e) not_numeric (demand (is_numeric t) bad_result none)
    else if op == 1
    then demand (e == type_bool) not_bool (demand (t == type_bool) bad_result none)
    else none

-- The functions by number: 3 and 4 are `min` and `max`, 5 to 7 round to an int64, 11 is `pow`, and the
-- other numbers from 1 to 14 take one number.
abbrev is_extreme : ℕ → Bool
is_extreme f = (f == 3) || (f == 4)

abbrev is_rounding : ℕ → Bool
is_rounding f = leb 5 f && leb f 7

abbrev is_function : ℕ → Bool
is_function f = leb 1 f && leb f 14

-- Are all arguments numeric?
abbrev pub all_numeric : Exprs → Bool
all_numeric nil = true
all_numeric (cons e es) = let rest = all_numeric es in is_numeric (data_type e) && rest

unfoldable pub function_types : ℕ → Exprs → ℕ → Option Invalid
function_types f es t =
    let result = demand (is_numeric t || (t == type_int64)) bad_result none in
    if is_extreme f
    then demand (leb 2 (count es)) bad_arity (demand (all_numeric es) not_numeric result)
    else if f == 11
    then demand (count es == 2) bad_arity (demand (all_numeric es) not_numeric result)
    else if is_rounding f
    then demand (count es == 1) bad_arity
        (demand (all_numeric es) not_numeric (demand (t == type_int64) bad_result result))
    else if is_function f
    then demand (count es == 1) bad_arity (demand (all_numeric es) not_numeric result)
    else result

unfoldable mutual
  pub validate : Expr → Option Invalid
  validate nil_expr = some nil_expression
  validate (const v t) = validate_const v t
  validate (field p t) = validate_field p t
  validate (binary op l r t) =
      step in_left (validate l)
        (step in_right (validate r) (binary_types op (data_type l) (data_type r) t))
  validate (unary op e t) = step in_operand (validate e) (unary_types op (data_type e) t)
  validate (ternary c a b t) = step in_condition (validate c) (
      demand (data_type c == type_bool) not_bool (
        step in_true (validate a) (
          step in_false (validate b)
            (demand (is_compatible (data_type a) (data_type b)) incompatible none))))
  validate (call f es t) =
      let checks = function_types f es t in
      elim (validate_all 0 es) [ some e ↦ some e | none ↦ checks ]

  -- The loop over the arguments, from index `i` on.
  pub validate_all : ℕ → Exprs → Option Invalid
  validate_all i nil = none
  validate_all i (cons e es) = step (in_argument i) (validate e) (validate_all (suc i) es)
