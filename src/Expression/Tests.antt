-- ===== src/Expression/Tests.antt =====
-- Expressions of pkg/coordination/expressions at concrete inputs.
use quidditch.Common.{◌≡◌, refl, none, some, [], ◌∷◌, arith}
use quidditch.Common.{str_eq, ◌||◌, false}
use quidditch.Common.Results.{ok}
use quidditch.Json.{str, num, obj, Fields, entry, end, get, single, as_string}
use quidditch.Expression.Parser.{
  Numbers, parse, parse_value, parse_map, parse_operator, parse_const, binary_operator, binary_op,
  binary_result, operand,
}
use quidditch.Expression.Typing.{IsTyped, parse-IsTyped}
use quidditch.Expression.Ast.{
  Bytes, int64_value, float64_value, Expr, const, field, binary, ternary,
}
use quidditch.Expression.Validator.{validate, validate_const, validate_field, binary_types}
use quidditch.Expression.Serializer.{little_endian, value_bytes, serialize}
use quidditch.Expression.Validated.{validate-serialize}
use quidditch.Expression.Transport.{InRange, serialize-prefix_free}

-- `ab > 7`, with a field of a float64.
abbrev above : Expr
above = binary 11 (field (97 ∷ 98 ∷ []) 3) (const (int64_value 7) 2) 1

abbrev above_bytes : Bytes
above_bytes =
    3 ∷ 11 ∷ 1 ∷ 2 ∷ 3 ∷ 2 ∷ 0 ∷ 0 ∷ 0 ∷ 97 ∷ 98 ∷ 1 ∷ 2 ∷ 7 ∷ 0 ∷ 0 ∷ 0 ∷ 0 ∷ 0 ∷ 0 ∷ 0 ∷ []

above-valid : validate above ≡ none
unfolding validate validate_const validate_field binary_types
above-valid = refl

above-bytes : serialize above ≡ some above_bytes
unfolding serialize value_bytes little_endian
above-bytes = refl

-- An operator of no kind is accepted with operands and a result of any types.
unknown_operator : validate (binary 0 above (const (int64_value 7) 2) 4) ≡ none
unfolding validate validate_const validate_field binary_types
unknown_operator = refl

-- The result type of a ternary is not compared with the types of its branches.
ternary_of_string : validate (ternary above above above 4) ≡ none
unfolding validate validate_const validate_field binary_types
ternary_of_string = refl

above-InRange : InRange above
above-InRange = (omega arith, omega arith, (omega arith, omega arith), omega arith)

validate-serialize_example : (b : Bytes) × (serialize above ≡ some b)
validate-serialize_example = validate-serialize above above-valid

-- The bytes of the expression stand in front of three others.
abbrev behind : Bytes
behind = 7 ∷ 8 ∷ 9 ∷ []

serialize-prefix_free_example : (above ≡ above) × (behind ≡ behind)
serialize-prefix_free_example =
    serialize-prefix_free above above above_bytes above_bytes behind behind above-valid
      above-InRange above-valid above-InRange above-bytes above-bytes refl

-- Numbers as they are, and no text a number.
abbrev numbers : Numbers
numbers = record { parse_int = λ s. none; parse_float = λ s. none; to_int = λ n. n }

-- `{"op": ">", "left": {"field": "ab"}, "right": {"const": 7}}`, with the number as its bit pattern.
abbrev above_map : Fields
above_map = entry "op" (str ">") (
    entry "left" (obj (single "field" (str "ab")))
      (entry "right" (obj (single "const" (num 7))) end))

abbrev above_parsed : Expr
above_parsed = binary 11 (field (97 ∷ 98 ∷ []) 3) (const (float64_value 7) 3) 1

above-parsed : parse numbers above_map ≡ ok above_parsed
unfolding parse_value parse_map parse_operator parse_const binary_operator binary_op binary_result
    get
above-parsed = refl

above-accepted : validate above_parsed ≡ none
unfolding validate validate_const validate_field binary_types
above-accepted = refl

parse-IsTyped_example : IsTyped above_parsed
parse-IsTyped_example = parse-IsTyped numbers above_map above_parsed above-parsed above-accepted

-- `{"op": "^", "operand": {"field": "ab"}}`
abbrev caret_map : Fields
caret_map = entry "op" (str "^") (entry "operand" (obj (single "field" (str "ab"))) end)

caret-op : as_string (get "op" caret_map) ≡ some "^"
unfolding get
caret-op = refl

caret-unknown : (binary_operator "^" ≡ 0) × ((str_eq "^" "!" || str_eq "^" "not") ≡ false)
unfolding binary_operator
caret-unknown = (refl, refl)

caret-operand : operand numbers "operand" caret_map ≡ some (ok (field (97 ∷ 98 ∷ []) 3))
unfolding parse_value parse_map get
caret-operand = refl
