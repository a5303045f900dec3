-- ===== src/Expression/RoundTrip.antt =====
-- Decoding what pkg/coordination/expressions/serializer.go writes.
use mathlib.Core.List.{append_assoc}
use mathlib.Core.Path.{subst}
use quidditch.Common.{ℕ, zero, suc, ◌≤◌, ◌<◌, ◌≡◌, refl, sym, ap, some, [], ◌∷◌, ◌++◌, arith}
use quidditch.Expression.Ast.{
  Bytes, Value, nil_value, bool_value, int64_value, float64_value, string_value, other_value, Expr,
  Exprs, nil_expr, const, field, binary, unary, ternary, call, nil, cons, count,
}
use quidditch.Expression.Serializer.{
  value_bytes, little_endian, byte, write_string, serialize, serialize_all,
}
use quidditch.Expression.Decoding.{
  FitsValue, number-little_endian, read_string-write_string, value_bytes-some,
  read_value-value_bytes,
}
use quidditch.Expression.Reader.{read_const, read, read_all, Fits, FitsAll, size, size_all}

-- The bytes of an expression, from which it is read back, whatever follows.
abbrev pub IsReadBack : ℕ → Expr → Type 0
IsReadBack fuel e =
    (b : Bytes) × (serialize e ≡ some b) × ((rest : Bytes) → read fuel (b ++ rest) ≡ some (e, rest))

abbrev AllReadBack : ℕ → Exprs → Type 0
AllReadBack fuel es =
    (b : Bytes) × (serialize_all es ≡ some b)
    × ((rest : Bytes) → read_all (λ x. read fuel x) (count es) (b ++ rest) ≡ some (es, rest))

byte-small : (n : ℕ) → n < 256 → byte n ≡ n
byte-small n small = omega (arith, small)

FitsValue-small : (t : ℕ) (v : Value) → FitsValue t v → t < 256
FitsValue-small t nil_value fits = absurd fits
FitsValue-small t other_value fits = absurd fits
FitsValue-small t (bool_value b) is = omega (arith, is)
FitsValue-small t (int64_value n) (is, fits) = omega (arith, is)
FitsValue-small t (float64_value n) (is, fits) = omega (arith, is)
FitsValue-small t (string_value s) (is, fits) = omega (arith, is)

size-pos : (e : Expr) → 0 < size e
size-pos nil_expr = omega arith
size-pos (const v t) = omega arith
size-pos (field p t) = omega arith
size-pos (binary op l r t) = omega arith
size-pos (unary op e t) = omega arith
size-pos (ternary c x y t) = omega arith
size-pos (call f es t) = omega arith

const_back :
    (t : ℕ) (v : Value) (b rest : Bytes)
    → FitsValue t v
    → value_bytes t v ≡ some b
    → read_const (byte t ∷ b ++ rest) ≡ some (const v t, rest)
const_back t v b rest fits is =
    subst (λ u. read_const (u ∷ b ++ rest) ≡ some (const v t, rest))
      (sym (byte-small t (FitsValue-small t v fits)))
      (rw (read_value-value_bytes t v b rest fits is) refl)

mutual
  unfolding serialize read read_all

  pub read_back : (fuel : ℕ) (e : Expr) → Fits e → size e ≤ fuel → IsReadBack fuel e
  read_back zero e fits enough = absurd (omega (arith, size-pos e, enough))
  read_back (suc fuel) nil_expr fits enough = absurd fits
  read_back (suc fuel) (const v t) fits enough =
      let (b, is) = value_bytes-some t v fits in
      (1 ∷ byte t ∷ b, rw is refl, λ rest. const_back t v b rest fits is)
  read_back (suc fuel) (field p t) (tf, pf) enough = (
    2 ∷ byte t ∷ write_string p,
    refl,
    λ rest.
        rw (read_string-write_string p rest pf)
          (ap (λ u. some (field p u, rest)) (byte-small t tf)),
  )
  read_back (suc fuel) (binary op l r t) (of, tf, lf, rf) enough =
      let (a, ea, ra) = read_back fuel l lf (omega (arith, enough)) in
      let (b, eb, rb) = read_back fuel r rf (omega (arith, enough)) in
      (
        3 ∷ byte op ∷ byte t ∷ a ++ b,
        rw (ea, eb) refl,
        λ rest. rw (append_assoc a b rest) (
            rw (ra (b ++ rest)) (
              rw (rb rest)
                (λ i. some (binary (byte-small op of i) l r (byte-small t tf i), rest)))),
      )
  read_back (suc fuel) (unary op e t) (of, tf, ef) enough =
      let (a, ea, ra) = read_back fuel e ef (omega (arith, enough)) in
      (
        4 ∷ byte op ∷ byte t ∷ a,
        rw ea refl,
        λ rest. rw (ra rest) (λ i. some (unary (byte-small op of i) e (byte-small t tf i), rest)),
      )
  read_back (suc fuel) (ternary c x y t) (tf, cf, xf, yf) enough =
      let (a, ea, ra) = read_back fuel c cf (omega (arith, enough)) in
      let (b, eb, rb) = read_back fuel x xf (omega (arith, enough)) in
      let (d, ed, rd) = read_back fuel y yf (omega (arith, enough)) in
      (
        5 ∷ byte t ∷ a ++ (b ++ d),
        rw (ea, eb, ed) refl,
        λ rest. rw (append_assoc a (b ++ d) rest) (
            rw (append_assoc b d rest) (
              rw (ra (b ++ (d ++ rest))) (
                rw (rb (d ++ rest))
                  (rw (rd rest) (λ i. some (ternary c x y (byte-small t tf i), rest)))))),
      )
  read_back (suc fuel) (call f es t) (ff, tf, cf, ef) enough =
      let (a, ea, ra) = read_all_back fuel es ef (omega (arith, enough)) in
      (
        6 ∷ byte f ∷ byte t ∷ little_endian 4 (count es) ++ a,
        rw ea refl,
        λ rest. rw (append_assoc (little_endian 4 (count es)) a rest) (
            rw (number-little_endian 4 (count es) (a ++ rest) cf)
              (rw (ra rest) (λ i. some (call (byte-small f ff i) es (byte-small t tf i), rest)))),
      )

  read_all_back : (fuel : ℕ) (es : Exprs) → FitsAll es → size_all es ≤ fuel → AllReadBack fuel es
  read_all_back fuel nil fits enough = ([], refl, λ rest. refl)
  read_all_back fuel (cons e es) (ef, esf) enough =
      let (a, ea, ra) = read_back fuel e ef (omega (arith, enough)) in
      let (b, eb, rb) = read_all_back fuel es esf (omega (arith, enough)) in
      (
        a ++ b,
        rw (ea, eb) refl,
        λ rest. rw (append_assoc a b rest) (rw (ra (b ++ rest)) (rw (rb rest) refl)),
      )
