-- ===== src/Expression/Transport.antt =====
-- Expressions of pkg/coordination/expressions from the validator through the serializer to bytes.
use mathlib.Core.Path.{subst}
use quidditch.Common.{
  ℕ, suc, ◌+◌, ◌<◌, ◌≡◌, sym, ap, ◌∙◌, some-injective, true, none, some, ◌++◌, ◌==◌, not, length,
  arith,
}
use quidditch.Expression.Ast.{
  Bytes, Value, nil_value, bool_value, int64_value, float64_value, string_value, other_value, Expr,
  Exprs, nil_expr, const, field, binary, unary, ternary, call, nil, cons, count, data_type,
  type_bool,
}
use quidditch.Expression.Validator.{
  nil_constant, unknown_type, mismatch, is_nil, has_type, is_known, validate_const, validate,
  validate_all, in_left, in_right, in_operand, in_condition, in_true, in_false, in_argument,
  not_bool,
}
use quidditch.Expression.Serializer.{serialize}
use quidditch.Expression.Validated.{step-none, demand-none, arguments_valid}
use quidditch.Expression.Decoding.{FitsValue, span}
use quidditch.Expression.Reader.{read, Fits, FitsAll, size}
use quidditch.Expression.RoundTrip.{read_back}

abbrev pub InRangeValue : Value → Type 0
InRangeValue nil_value = Unit
InRangeValue (bool_value b) = Unit
InRangeValue (int64_value n) = n < span 8
InRangeValue (float64_value n) = n < span 8
InRangeValue (string_value s) = length s < span 4
InRangeValue other_value = Unit

-- The numbers of an expression, and the lengths, fit the fields that the serializer writes.
abbrev mutual
  pub InRange : Expr → Type 0
  InRange nil_expr = Unit
  InRange (const v t) = InRangeValue v
  InRange (field p t) = (t < 256) × (length p < span 4)
  InRange (binary op l r t) = (op < 256) × (t < 256) × InRange l × InRange r
  InRange (unary op e t) = (op < 256) × (t < 256) × InRange e
  InRange (ternary c x y t) = (t < 256) × InRange c × InRange x × InRange y
  InRange (call f es t) = (f < 256) × (t < 256) × (count es < span 4) × AllInRange es

  pub AllInRange : Exprs → Type 0
  AllInRange nil = Unit
  AllInRange (cons e es) = InRange e × AllInRange es

typed-FitsValue : (t : ℕ) (v : Value) → has_type t v ≡ true → InRangeValue v → FitsValue t v
typed-FitsValue t nil_value e small = absurd (cc)
typed-FitsValue t (bool_value b) e small = ground arith
typed-FitsValue t (int64_value n) e small = (ground arith, small)
typed-FitsValue t (float64_value n) e small = (ground arith, small)
typed-FitsValue t (string_value s) e small = (ground arith, small)
typed-FitsValue t other_value e small = absurd (cc)

const-FitsValue : (v : Value) (t : ℕ) → validate_const v t ≡ none → InRangeValue v → FitsValue t v
unfolding validate_const
const-FitsValue v t h small =
    let (_, h1) = demand-none (not (is_nil v)) nil_constant _ h in
    let (_, h2) = demand-none (is_known t) (unknown_type t) _ h1 in
    let (typed, _) = demand-none (has_type t v) (mismatch t) none h2 in
    typed-FitsValue t v typed small

mutual
  unfolding validate

  validated-Fits : (e : Expr) → validate e ≡ none → InRange e → Fits e
  validated-Fits nil_expr h small = absurd (cc)
  validated-Fits (const v t) h small = const-FitsValue v t h small
  validated-Fits (field p t) h small = small
  validated-Fits (binary op l r t) h (of, tf, ls, rs) =
      let (hl, h1) = step-none in_left (validate l) _ h in
      let (hr, _) = step-none in_right (validate r) _ h1 in
      (of, tf, validated-Fits l hl ls, validated-Fits r hr rs)
  validated-Fits (unary op e t) h (of, tf, es) =
      let (he, _) = step-none in_operand (validate e) _ h in (of, tf, validated-Fits e he es)
  validated-Fits (ternary c x y t) h (tf, cs, xs, ys) =
      let (hc, h1) = step-none in_condition (validate c) _ h in
      let (_, h2) = demand-none (data_type c == type_bool) not_bool _ h1 in
      let (hx, h3) = step-none in_true (validate x) _ h2 in
      let (hy, _) = step-none in_false (validate y) _ h3 in
      (tf, validated-Fits c hc cs, validated-Fits x hx xs, validated-Fits y hy ys)
  validated-Fits (call f es t) h (ff, tf, few, ss) =
      (ff, tf, few, all_validated-FitsAll 0 es (arguments_valid f es t h) ss)

  all_validated-FitsAll :
      (i : ℕ) (es : Exprs) → validate_all i es ≡ none → AllInRange es → FitsAll es
  all_validated-FitsAll i nil h small = tt
  all_validated-FitsAll i (cons e es) h (s, ss) =
      let (he, hs) = step-none (in_argument i) (validate e) _ h in
      (validated-Fits e he s, all_validated-FitsAll (suc i) es hs ss)

-- No serialization of an expression that the validator accepts, and whose numbers and lengths fit the fields of the bytes,
-- is a prefix of that of another one: where the bytes of two with anything behind them agree, the expressions are the
-- same, and so is what stands behind.
pub serialize-prefix_free :
    (e e' : Expr) (b b' rest rest' : Bytes)
    → validate e ≡ none
    → InRange e
    → validate e' ≡ none
    → InRange e'
    → serialize e ≡ some b
    → serialize e' ≡ some b'
    → b ++ rest ≡ b' ++ rest'
    → (e ≡ e') × (rest ≡ rest')
serialize-prefix_free e e' b b' rest rest' h small h' small' is is' agree =
    let fuel = size e + size e' in
    let (w, made, reads) = read_back fuel e (validated-Fits e h small) (omega arith) in
    let (w', made', reads') = read_back fuel e' (validated-Fits e' h' small') (omega arith) in
    let left : read fuel (b ++ rest) ≡ some (e, rest) =
      subst (λ x. read fuel (x ++ rest) ≡ some (e, rest)) (some-injective w b (sym made ∙ is))
        (reads rest) in
    let right : read fuel (b' ++ rest') ≡ some (e', rest') =
      subst (λ x. read fuel (x ++ rest') ≡ some (e', rest'))
        (some-injective w' b' (sym made' ∙ is')) (reads' rest') in
    let both : (e, rest) ≡ (e', rest') =
      some-injective _ _ (sym left ∙ (ap (λ x. read fuel x) agree ∙ right)) in
    (ap (λ p. p.0) both, ap (λ p. p.1) both)
