-- ===== src/Query/Expressions.antt =====
-- Expression queries of pkg/coordination/parser/parser.go: from JSON through the parser, the validator and the
-- serializer of pkg/coordination/expressions.
use quidditch.Common.{
  ℕ, ◌≤◌, ◌<◌, ◌≡◌, ◌≢◌, sym, ap, ◌∙◌, none, some, ◌++◌, length, Option-cases, inl, inr, arith,
}
use mathlib.Core.Path.{subst}
use quidditch.Common.Results.{
  ok, err, ◌>>=◌, within, >>=-eq-ok, within-eq-ok, Result-cases, Gives-ok,
}
use quidditch.Json.{Fields}
use quidditch.Expression.Ast.{
  Bytes, Value, nil_value, bool_value, int64_value, float64_value, string_value, other_value, Expr,
  Exprs, nil_expr, const, field, binary, unary, ternary, call, nil, cons, data_type, count,
}
use quidditch.Expression.Parser.{Numbers, binary_result, function_result, first_type, parse}
use quidditch.Expression.Inferred.{IsOf, IsInferred, AreInferred, parse-Gives}
use quidditch.Expression.Validator.{validate}
use quidditch.Expression.Serializer.{serialize}
use quidditch.Expression.Decoding.{span}
use quidditch.Expression.Validated.{validate-serialize}
use quidditch.Expression.Transport.{InRangeValue, InRange, AllInRange, serialize-prefix_free}
use quidditch.Expression.Typing.{IsTyped, parse-IsTyped}
use quidditch.Query.Ast.{Query, expression}
use quidditch.Query.Leaf.{bad_expression, not_serialized, checked_expression, expression_body}

-- Strings and argument lists are shorter than 2 ^ 32, and the numbers of constants are bit patterns of 64 bits.
abbrev mutual
  pub IsShort : Expr → Type 0
  IsShort nil_expr = Unit
  IsShort (const v t) = InRangeValue v
  IsShort (field p t) = length p < span 4
  IsShort (binary op l r t) = IsShort l × IsShort r
  IsShort (unary op e t) = IsShort e
  IsShort (ternary c x y t) = IsShort c × IsShort x × IsShort y
  IsShort (call f es t) = (count es < span 4) × AreShort es

  AreShort : Exprs → Type 0
  AreShort nil = Unit
  AreShort (cons e es) = IsShort e × AreShort es

const_type-le : (v : Value) (t : ℕ) → IsOf t v → t ≤ 4
const_type-le nil_value t h = absurd h
const_type-le (bool_value b) t h = omega arith
const_type-le (int64_value n) t h = omega arith
const_type-le (float64_value n) t h = omega arith
const_type-le (string_value s) t h = omega arith
const_type-le other_value t h = absurd h

binary_result-le : (op l r : ℕ) → binary_result op l r ≤ 4
unfolding binary_result
binary_result-le op l r = ground arith

function_result-le : (f : ℕ) (es : Exprs) → first_type es ≤ 4 → function_result f es ≤ 4
unfolding function_result
function_result-le f es h = ground arith

mutual
  data_type-le : (e : Expr) → IsInferred e → data_type e ≤ 4
  data_type-le nil_expr h = absurd h
  data_type-le (const v t) h = const_type-le v t h
  data_type-le (field p t) (_, h) = h
  data_type-le (binary op l r t) (_, _, is, _, _) =
      omega (arith, binary_result-le op (data_type l) (data_type r), is)
  data_type-le (unary op e t) (_, is, h) = let small = data_type-le e h in ground arith
  data_type-le (ternary c x y t) h = absurd h
  data_type-le (call f es t) (_, _, is, h) =
      omega (arith, function_result-le f es (first_type-le es h), is)

  first_type-le : (es : Exprs) → AreInferred es → first_type es ≤ 4
  first_type-le nil h = omega arith
  first_type-le (cons e es) (h, _) = data_type-le e h

mutual
  short-InRange : (e : Expr) → IsInferred e → IsShort e → InRange e
  short-InRange nil_expr i h = tt
  short-InRange (const v t) i h = h
  short-InRange (field p t) (_, small) h = (omega arith, h)
  short-InRange (binary op l r t) i (hl, hr) =
      let (_, high, _, il, ir) = i in
      (
        omega arith,
        omega (arith, data_type-le (binary op l r t) i),
        short-InRange l il hl,
        short-InRange r ir hr,
      )
  short-InRange (unary op e t) i h =
      let (high, _, ie) = i in
      (omega arith, omega (arith, data_type-le (unary op e t) i), short-InRange e ie h)
  short-InRange (ternary c x y t) i h = absurd i
  short-InRange (call f es t) i (few, h) =
      let (_, high, _, ies) = i in
      (omega arith, omega (arith, data_type-le (call f es t) i), few, shorts-AllInRange es ies h)

  shorts-AllInRange : (es : Exprs) → AreInferred es → AreShort es → AllInRange es
  shorts-AllInRange nil i h = tt
  shorts-AllInRange (cons e es) (ie, ies) (h, hs) =
      (short-InRange e ie h, shorts-AllInRange es ies hs)

-- What a checked expression turned into a query is.
checked_expression-ok :
    (e : Expr) (q : Query)
    → checked_expression e ≡ ok q
    → (b : Bytes) × (q ≡ expression e b) × (validate e ≡ none) × (serialize e ≡ some b)
unfolding checked_expression
checked_expression-ok e q h = elim (Option-cases (validate e)) [
  | inl valid ↦ let (b, is) = validate-serialize e valid in (b, ground arith, valid, is)
  | inr (i, bad) ↦ absurd (ground arith)
]

checked_expression-serialized : (e : Expr) → checked_expression e ≢ err not_serialized
unfolding checked_expression
checked_expression-serialized e h = elim (Option-cases (validate e)) [
  | inl valid ↦ let (b, is) = validate-serialize e valid in ground arith
  | inr (i, bad) ↦ ground arith
]

expression_of : Expr → Query → Expr
expression_of d (expression e b) = e
expression_of d _ = d

bytes_of : Bytes → Query → Bytes
bytes_of d (expression e b) = b
bytes_of d _ = d

-- What an accepted body of an `expr` query is made of.
expression_body-ok :
    (nb : Numbers) (fs : Fields) (e : Expr) (b : Bytes)
    → expression_body nb fs ≡ ok (expression e b)
    → (parse nb fs ≡ ok e) × (validate e ≡ none) × (serialize e ≡ some b)
unfolding expression_body expression_of bytes_of
expression_body-ok nb fs e b h =
    let (d, wrapped, checked) =
      >>=-eq-ok checked_expression (expression e b) (within bad_expression (parse nb fs)) h in
    let (w, is, valid, serialized) = checked_expression-ok d (expression e b) checked in
    let same : d ≡ e = sym (ap (expression_of d) is) in
    let same_bytes : w ≡ b = sym (ap (bytes_of w) is) in
    (
      within-eq-ok bad_expression (parse nb fs) wrapped ∙ ap ok same,
      subst (λ x. validate x ≡ none) same valid,
      subst (λ x. serialize x ≡ some w) same serialized ∙ ap some same_bytes,
    )

accepted-InRange :
    (nb : Numbers) (fs : Fields) (e : Expr) → parse nb fs ≡ ok e → IsShort e → InRange e
accepted-InRange nb fs e parsed short =
    short-InRange e (Gives-ok IsInferred (parse nb fs) parsed (parse-Gives nb fs)) short

-- The body of an `expr` query, when it is accepted, gives an expression that obeys the typing rules, with its
-- serialization. When the bytes of two accepted bodies agree with anything behind them, and their strings and argument
-- lists are shorter than 2 ^ 32 and their numbers have 64 bits, the expressions are the same, and so is what stands
-- behind.
pub expression_body-prefix_free :
    (nb : Numbers) (fs fs' : Fields) (e e' : Expr) (b b' rest rest' : Bytes)
    → expression_body nb fs ≡ ok (expression e b)
    → expression_body nb fs' ≡ ok (expression e' b')
    → IsShort e
    → IsShort e'
    → b ++ rest ≡ b' ++ rest'
    → IsTyped e × (serialize e ≡ some b) × (e ≡ e') × (rest ≡ rest')
expression_body-prefix_free nb fs fs' e e' b b' rest rest' h h' short short' agree =
    let (parsed, accepted, written) = expression_body-ok nb fs e b h in
    let (parsed', accepted', written') = expression_body-ok nb fs' e' b' h' in
    let (same, behind) =
      serialize-prefix_free e e' b b' rest rest' accepted (accepted-InRange nb fs e parsed short)
        accepted' (accepted-InRange nb fs' e' parsed' short') written written' agree in
    (parse-IsTyped nb fs e parsed accepted, written, same, behind)

-- The last error of the source, that an accepted expression cannot be serialized, never comes.
pub expression_body-serialized :
    (nb : Numbers) (fs : Fields) → expression_body nb fs ≢ err not_serialized
unfolding expression_body
expression_body-serialized nb fs h = elim (Result-cases (parse nb fs)) [
  | inl (e, is) ↦
      checked_expression-serialized e
        (subst (λ r. (within bad_expression r >>= checked_expression) ≡ err not_serialized) is h)
  | inr (e, is) ↦
      let g : err (bad_expression e) ≡ err not_serialized =
        subst (λ r. (within bad_expression r >>= checked_expression) ≡ err not_serialized) is h in
      absurd (cc)
]
