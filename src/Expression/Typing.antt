-- ===== src/Expression/Typing.antt =====
-- The types of the expressions that pkg/coordination/expressions/parser.go parses and validator.go accepts.
use quidditch.Common.{
  ℕ, suc, ◌≤◌, ◌≡◌, ◌⊎◌, inl, inr, true, false, none, ◌==◌, leb, ◌&&◌, ◌||◌, if◌then◌else◌,
  Bool-cases, Option-cases, arith,
}
use quidditch.Common.Results.{ok, Gives-ok}
use quidditch.Json.{Fields}
use quidditch.Expression.Ast.{
  type_bool, type_int64, type_float64, Expr, Exprs, nil_expr, const, field, binary, unary, ternary,
  call, nil, cons, data_type, count,
}
use quidditch.Expression.Parser.{Numbers, binary_result, function_result, first_type, parse}
use quidditch.Expression.Validator.{
  is_numeric, is_compatible, binary_types, unary_types, function_types, all_numeric, validate,
  validate_all, in_left, in_right, in_operand, in_argument,
}
use quidditch.Expression.Validated.{step-none, arguments_valid}
use quidditch.Expression.Inferred.{IsOf, IsInferred, AreInferred, parse-Gives}

abbrev IsNumeric : ℕ → Type 0
IsNumeric t = (t ≡ type_int64) ⊎ (t ≡ type_float64)

-- The wider of two numeric types.
abbrev wider : ℕ → ℕ → ℕ
wider t u = if t == type_float64 then type_float64 else u

abbrev IsArithmetic : ℕ → ℕ → ℕ → ℕ → Type 0
IsArithmetic op l r t = (1 ≤ op) × (op ≤ 6) × IsNumeric l × IsNumeric r × (t ≡ wider l r)

abbrev IsComparison : ℕ → ℕ → ℕ → ℕ → Type 0
IsComparison op l r t =
    (7 ≤ op) × (op ≤ 12) × ((l ≡ r) ⊎ (IsNumeric l × IsNumeric r)) × (t ≡ type_bool)

abbrev IsLogical : ℕ → ℕ → ℕ → ℕ → Type 0
IsLogical op l r t = (13 ≤ op) × (op ≤ 14) × (l ≡ type_bool) × (r ≡ type_bool) × (t ≡ type_bool)

-- The typing rules of the language, with the numbers of operators and functions.
abbrev BinaryRule : ℕ → ℕ → ℕ → ℕ → Type 0
BinaryRule op l r t = IsArithmetic op l r t ⊎ (IsComparison op l r t ⊎ IsLogical op l r t)

abbrev UnaryRule : ℕ → ℕ → ℕ → Type 0
UnaryRule op e t =
    ((op ≡ 0) × IsNumeric e × (t ≡ e)) ⊎ ((op ≡ 1) × (e ≡ type_bool) × (t ≡ type_bool))

abbrev AreNumeric : Exprs → Type 0
AreNumeric nil = Unit
AreNumeric (cons e es) = IsNumeric (data_type e) × AreNumeric es

-- `abs` and `sqrt`, the logarithms and `exp`, and the trigonometric functions.
abbrev IsFloatFunction : ℕ → Type 0
IsFloatFunction f = ((1 ≤ f) × (f ≤ 2)) ⊎ (((8 ≤ f) × (f ≤ 10)) ⊎ ((12 ≤ f) × (f ≤ 14)))

-- `min` and `max`, `pow`, the functions that round, and the others.
abbrev FunctionRule : ℕ → Exprs → ℕ → Type 0
FunctionRule f es t =
    ((3 ≤ f) × (f ≤ 4) × (2 ≤ count es) × (t ≡ first_type es))
    ⊎ (((f ≡ 11) × (count es ≡ 2) × (t ≡ type_float64))
        ⊎ (((5 ≤ f) × (f ≤ 7) × (count es ≡ 1) × (t ≡ type_int64))
            ⊎ (IsFloatFunction f × (count es ≡ 1) × (t ≡ type_float64))))

abbrev mutual
  pub IsTyped : Expr → Type 0
  IsTyped nil_expr = ⊥
  IsTyped (const v t) = IsOf t v
  IsTyped (field p t) = (1 ≤ t) × (t ≤ 4)
  IsTyped (binary op l r t) = BinaryRule op (data_type l) (data_type r) t × IsTyped l × IsTyped r
  IsTyped (unary op e t) = UnaryRule op (data_type e) t × IsTyped e
  IsTyped (ternary c a b t) = ⊥
  IsTyped (call f es t) = FunctionRule f es t × AreNumeric es × AreTyped es

  AreTyped : Exprs → Type 0
  AreTyped nil = Unit
  AreTyped (cons e es) = IsTyped e × AreTyped es

test-eq : (a b : ℕ) → (a == b) ≡ true → a ≡ b
test-eq a b h = ground arith

is_numeric-IsNumeric : (t : ℕ) → is_numeric t ≡ true → IsNumeric t
is_numeric-IsNumeric t h = elim (Bool-cases (t == type_int64)) [
  | inl is ↦ inl (test-eq t type_int64 is)
  | inr not_int ↦ inr (ground arith)
]

-- What the checks of an operator find, when they find nothing wrong.
arithmetic_checked :
    (op l r t : ℕ)
    → 1 ≤ op
    → op ≤ 6
    → binary_types op l r t ≡ none
    → (is_numeric l ≡ true) × (is_numeric r ≡ true)
unfolding binary_types
arithmetic_checked op l r t low high valid = (ground arith, ground arith)

comparison_checked :
    (op l r t : ℕ) → 7 ≤ op → op ≤ 12 → binary_types op l r t ≡ none → is_compatible l r ≡ true
unfolding binary_types
comparison_checked op l r t low high valid = ground arith

logical_checked :
    (op l r t : ℕ)
    → 13 ≤ op
    → op ≤ 14
    → binary_types op l r t ≡ none
    → (l ≡ type_bool) × (r ≡ type_bool) × (t ≡ type_bool)
unfolding binary_types
logical_checked op l r t low high valid = (ground arith, ground arith, ground arith)

compatible_rule : (l r : ℕ) → is_compatible l r ≡ true → (l ≡ r) ⊎ (IsNumeric l × IsNumeric r)
compatible_rule l r h = elim (Bool-cases (l == r)) [
  | inl same ↦ inl (test-eq l r same)
  | inr other ↦ inr (is_numeric-IsNumeric l (ground arith), is_numeric-IsNumeric r (ground arith))
]

-- The range that an operator is in.
operator_range :
    (op : ℕ)
    → 1 ≤ op
    → op ≤ 14
    → ((1 ≤ op) × (op ≤ 6)) ⊎ (((7 ≤ op) × (op ≤ 12)) ⊎ ((13 ≤ op) × (op ≤ 14)))
operator_range op low high = elim (Bool-cases (leb op 6)) [
  | inl a ↦ inl (low, ground arith)
  | inr a ↦ elim (Bool-cases (leb op 12)) [
    | inl b ↦ inr (inl (ground arith, ground arith))
    | inr b ↦ inr (inr (ground arith, high))
  ]
]

binary_rule :
    (op l r t : ℕ)
    → 1 ≤ op
    → op ≤ 14
    → t ≡ binary_result op l r
    → binary_types op l r t ≡ none
    → BinaryRule op l r t
unfolding binary_result
binary_rule op l r t low high is valid = elim (operator_range op low high) [
  | inl (a, b) ↦
      let (nl, nr) = arithmetic_checked op l r t a b valid in
      inl (a, b, is_numeric-IsNumeric l nl, is_numeric-IsNumeric r nr, ground arith)
  | inr (inl (a, b)) ↦
      inr (inl (a, b, compatible_rule l r (comparison_checked op l r t a b valid), ground arith))
  | inr (inr (a, b)) ↦
      let (bl, br, bt) = logical_checked op l r t a b valid in inr (inr (a, b, bl, br, bt))
]

unary_rule :
    (op e t : ℕ)
    → op ≤ 1
    → t ≡ (if op == 1 then type_bool else e)
    → unary_types op e t ≡ none
    → UnaryRule op e t
unfolding unary_types
unary_rule op e t high is valid = elim (Bool-cases (op == 1)) [
  | inl one ↦ inr (test-eq op 1 one, ground arith, ground arith)
  | inr other ↦ inl (ground arith, is_numeric-IsNumeric e (ground arith), ground arith)
]

numeric_arguments : (es : Exprs) → all_numeric es ≡ true → AreNumeric es
numeric_arguments nil h = tt
numeric_arguments (cons e es) h =
    (is_numeric-IsNumeric (data_type e) (ground arith), numeric_arguments es (ground arith))

-- The functions that are none of the other three kinds.
float_function :
    (f : ℕ)
    → 1 ≤ f
    → f ≤ 14
    → (f == 3 || f == 4) ≡ false
    → (f == 11) ≡ false
    → (leb 5 f && leb f 7) ≡ false
    → IsFloatFunction f
float_function f low high a b c = elim (Bool-cases (leb f 2)) [
  | inl small ↦ inl (low, ground arith)
  | inr large ↦ elim (Bool-cases (leb f 10)) [
    | inl middle ↦ inr (inl (ground arith, ground arith))
    | inr last ↦ inr (inr (ground arith, high))
  ]
]

all_numeric_checked :
    (f : ℕ) (es : Exprs) (t : ℕ)
    → 1 ≤ f
    → f ≤ 14
    → function_types f es t ≡ none
    → all_numeric es ≡ true
unfolding function_types
all_numeric_checked f es t low high valid = ground arith

function_rule :
    (f : ℕ) (es : Exprs) (t : ℕ)
    → 1 ≤ f
    → f ≤ 14
    → t ≡ function_result f es
    → function_types f es t ≡ none
    → FunctionRule f es t
unfolding function_types function_result
function_rule f es t low high is valid = elim (Bool-cases (f == 3 || f == 4)) [
  | inl extreme ↦ inl (ground arith, ground arith, ground arith, ground arith)
  | inr a ↦ elim (Bool-cases (f == 11)) [
    | inl power ↦ inr (inl (ground arith, ground arith, ground arith))
    | inr b ↦ elim (Bool-cases (leb 5 f && leb f 7)) [
      | inl rounding ↦ inr (inr (inl (ground arith, ground arith, ground arith, ground arith)))
      | inr c ↦ inr (inr (inr (float_function f low high a b c, ground arith, ground arith)))
    ]
  ]
]

function_checked :
    (f : ℕ) (es : Exprs) (t : ℕ) → validate (call f es t) ≡ none → function_types f es t ≡ none
unfolding validate
function_checked f es t h = elim (Option-cases (validate_all 0 es)) [
  | inl good ↦ ground arith
  | inr (e, bad) ↦ absurd (ground arith)
]

mutual
  unfolding validate

  inferred-IsTyped : (e : Expr) → IsInferred e → validate e ≡ none → IsTyped e
  inferred-IsTyped nil_expr i h = i
  inferred-IsTyped (const v t) i h = i
  inferred-IsTyped (field p t) i h = i
  inferred-IsTyped (binary op l r t) (low, high, is, il, ir) h =
      let (hl, h1) = step-none in_left (validate l) _ h in
      let (hr, h2) = step-none in_right (validate r) _ h1 in
      (
        binary_rule op (data_type l) (data_type r) t low high is h2,
        inferred-IsTyped l il hl,
        inferred-IsTyped r ir hr,
      )
  inferred-IsTyped (unary op e t) (high, is, ie) h =
      let (he, h1) = step-none in_operand (validate e) _ h in
      (unary_rule op (data_type e) t high is h1, inferred-IsTyped e ie he)
  inferred-IsTyped (ternary c a b t) i h = i
  inferred-IsTyped (call f es t) (low, high, is, ies) h =
      let checked = function_checked f es t h in
      (
        function_rule f es t low high is checked,
        numeric_arguments es (all_numeric_checked f es t low high checked),
        inferred-AreTyped 0 es ies (arguments_valid f es t h),
      )

  inferred-AreTyped : (i : ℕ) (es : Exprs) → AreInferred es → validate_all i es ≡ none → AreTyped es
  inferred-AreTyped i nil is h = tt
  inferred-AreTyped i (cons e es) (ie, ies) h =
      let (he, hs) = step-none (in_argument i) (validate e) _ h in
      (inferred-IsTyped e ie he, inferred-AreTyped (suc i) es ies hs)

-- An expression that is parsed and then accepted by the validator obeys the typing rules in every node: operands
-- and arguments have the types and the number that the operator or function demands, and the declared result
-- type is the one that follows from them.
pub parse-IsTyped :
    (nb : Numbers) (fs : Fields) (e : Expr) → parse nb fs ≡ ok e → validate e ≡ none → IsTyped e
parse-IsTyped nb fs e parsed valid =
    inferred-IsTyped e (Gives-ok IsInferred (parse nb fs) parsed (parse-Gives nb fs)) valid
