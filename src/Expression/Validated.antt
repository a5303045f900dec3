-- ===== src/Expression/Validated.antt =====
-- The validator of pkg/coordination/expressions/validator.go before the serializer of serializer.go.
use quidditch.Common.{
  ℕ, suc, ◌≡◌, refl, Bool, true, false, Option, none, some, [], ◌∷◌, ◌++◌, ◌==◌, not, arith,
  Option-cases, inl, inr,
}
use quidditch.Expression.Ast.{
  Bytes, type_bool, Value, nil_value, bool_value, int64_value, float64_value, string_value,
  other_value, Expr, Exprs, nil_expr, const, field, binary, unary, ternary, call, nil, cons,
  data_type, count,
}
use quidditch.Expression.Validator.{
  Invalid, nil_constant, unknown_type, mismatch, is_nil, step, demand, has_type, is_known,
  validate_const, validate, validate_all, in_left, in_right, in_operand, in_condition, in_true,
  in_false, in_argument, not_bool,
}
use quidditch.Expression.Serializer.{
  byte, little_endian, write_bool, write_string, value_bytes, serialize, serialize_all,
}

pub step-none :
    (wrap : Invalid → Invalid) (o rest : Option Invalid)
    → step wrap o rest ≡ none
    → (o ≡ none) × (rest ≡ none)
step-none wrap none rest e = (refl, e)
step-none wrap (some i) rest e = absurd (cc)

pub demand-none :
    (b : Bool) (i : Invalid) (rest : Option Invalid)
    → demand b i rest ≡ none
    → (b ≡ true) × (rest ≡ none)
demand-none true i rest e = (refl, e)
demand-none false i rest e = absurd (cc)

has_type-value_bytes :
    (t : ℕ) (v : Value) → has_type t v ≡ true → (b : Bytes) × (value_bytes t v ≡ some b)
unfolding value_bytes
has_type-value_bytes t (bool_value b) e = (write_bool b, ground arith)
has_type-value_bytes t (int64_value n) e = (little_endian 8 n, ground arith)
has_type-value_bytes t (float64_value n) e = (little_endian 8 n, ground arith)
has_type-value_bytes t (string_value x) e = (write_string x, ground arith)
has_type-value_bytes t nil_value e = absurd (cc)
has_type-value_bytes t other_value e = absurd (cc)

const_bytes :
    (v : Value) (t : ℕ) → validate_const v t ≡ none → (b : Bytes) × (serialize (const v t) ≡ some b)
unfolding validate_const serialize
const_bytes v t h =
    let (_, h1) = demand-none (not (is_nil v)) nil_constant _ h in
    let (_, h2) = demand-none (is_known t) (unknown_type t) _ h1 in
    let (typed, _) = demand-none (has_type t v) (mismatch t) none h2 in
    let (b, is) = has_type-value_bytes t v typed in (1 ∷ byte t ∷ b, rw is refl)

pub arguments_valid :
    (f : ℕ) (es : Exprs) (t : ℕ) → validate (call f es t) ≡ none → validate_all 0 es ≡ none
unfolding validate
arguments_valid f es t h = elim (Option-cases (validate_all 0 es)) [
  | inl good ↦ good
  | inr (e, bad) ↦ absurd (ground arith)
]

mutual
  unfolding validate serialize

  validated : (e : Expr) → validate e ≡ none → (b : Bytes) × (serialize e ≡ some b)
  validated nil_expr h = absurd (cc)
  validated (const v t) h = const_bytes v t h
  validated (field p t) h = (2 ∷ byte t ∷ write_string p, refl)
  validated (binary op l r t) h =
      let (hl, h1) = step-none in_left (validate l) _ h in
      let (hr, _) = step-none in_right (validate r) _ h1 in
      let (a, ea) = validated l hl in
      let (b, eb) = validated r hr in (3 ∷ byte op ∷ byte t ∷ a ++ b, rw (ea, eb) refl)
  validated (unary op e t) h =
      let (he, _) = step-none in_operand (validate e) _ h in
      let (a, ea) = validated e he in (4 ∷ byte op ∷ byte t ∷ a, rw ea refl)
  validated (ternary c x y t) h =
      let (hc, h1) = step-none in_condition (validate c) _ h in
      let (_, h2) = demand-none (data_type c == type_bool) not_bool _ h1 in
      let (hx, h3) = step-none in_true (validate x) _ h2 in
      let (hy, _) = step-none in_false (validate y) _ h3 in
      let (a, ea) = validated c hc in
      let (b, eb) = validated x hx in
      let (d, ed) = validated y hy in (5 ∷ byte t ∷ a ++ (b ++ d), rw (ea, eb, ed) refl)
  validated (call f es t) h =
      let (a, ea) = all_validated 0 es (arguments_valid f es t h) in
      (6 ∷ byte f ∷ byte t ∷ little_endian 4 (count es) ++ a, rw ea refl)

  all_validated :
      (i : ℕ) (es : Exprs) → validate_all i es ≡ none → (b : Bytes) × (serialize_all es ≡ some b)
  all_validated i nil h = ([], refl)
  all_validated i (cons e es) h =
      let (he, hs) = step-none (in_argument i) (validate e) _ h in
      let (a, ea) = validated e he in
      let (b, eb) = all_validated (suc i) es hs in (a ++ b, rw (ea, eb) refl)

-- Every expression that the validator accepts is serialized without an error.
pub validate-serialize : (e : Expr) → validate e ≡ none → (b : Bytes) × (serialize e ≡ some b)
validate-serialize e h = validated e h
