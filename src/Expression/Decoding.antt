-- ===== src/Expression/Decoding.antt =====
-- A decoder of the fields that pkg/coordination/expressions/serializer.go writes, for proofs about its bytes. It is not
-- the format of pkg/data/diagon/README_CPP.md, which differs.
use mathlib.Core.List.{append_assoc}
use quidditch.Common.{
  ℕ, zero, suc, ◌+◌, ◌*◌, ◌/◌, ◌%◌, ◌<◌, ◌≡◌, refl, sym, ap, ◌∙◌, true, false, Option, none, some,
  some-injective, [], ◌∷◌, ◌++◌, length, ◌==◌, if◌then◌else◌, ◌>>=◌, arith,
}
use mathlib.Core.Path.{subst}
use quidditch.Expression.Ast.{
  Bytes, type_bool, type_int64, type_float64, type_string, Value, nil_value, bool_value,
  int64_value, float64_value, string_value, other_value,
}
use quidditch.Expression.Serializer.{little_endian, write_bool, write_string, value_bytes}

abbrev pub Read : Type 0 → Type 0
Read A = Option (A × Bytes)

-- A number of `k` bytes in little endian.
unfoldable pub number : ℕ → Bytes → Read ℕ
number zero bs = some (0, bs)
number (suc k) [] = none
number (suc k) (b ∷ bs) = do r ← number k bs; some (b + 256 * r.0, r.1)

unfoldable pub take_bytes : ℕ → Bytes → Read Bytes
take_bytes zero bs = some ([], bs)
take_bytes (suc n) [] = none
take_bytes (suc n) (b ∷ bs) = do r ← take_bytes n bs; some (b ∷ r.0, r.1)

unfoldable pub read_string : Bytes → Read Bytes
read_string bs = do n ← number 4 bs; take_bytes n.0 n.1

unfoldable pub read_value : ℕ → Bytes → Read Value
read_value t bs =
    if t == type_bool
    then (number 1 bs >>= λ r. some (bool_value (r.0 == 1), r.1))
    else if t == type_int64
    then (number 8 bs >>= λ r. some (int64_value r.0, r.1))
    else if t == type_float64
    then (number 8 bs >>= λ r. some (float64_value r.0, r.1))
    else if t == type_string
    then (read_string bs >>= λ r. some (string_value r.0, r.1))
    else none

-- 256 ^ k.
abbrev pub span : ℕ → ℕ
span zero = 1
span (suc k) = 256 * span k

pub number-little_endian :
    (k n : ℕ) (rest : Bytes) → n < span k → number k (little_endian k n ++ rest) ≡ some (n, rest)
unfolding number little_endian
number-little_endian zero n rest fits =
    let zero_left : 0 ≡ n = omega (arith, fits) in ap (λ m. some (m, rest)) zero_left
number-little_endian (suc k) n rest fits =
    let less : n / 256 < span k = omega (arith, fits) in
    let whole : n % 256 + 256 * (n / 256) ≡ n = omega arith in
    rw (number-little_endian k (n / 256) rest less) (ap (λ m. some (m, rest)) whole)

take_bytes-append : (s rest : Bytes) → take_bytes (length s) (s ++ rest) ≡ some (s, rest)
unfolding take_bytes
take_bytes-append [] rest = refl
take_bytes-append (b ∷ s) rest = rw (take_bytes-append s rest) refl

pub read_string-write_string :
    (s rest : Bytes) → length s < span 4 → read_string (write_string s ++ rest) ≡ some (s, rest)
unfolding read_string
read_string-write_string s rest fits =
    rw (append_assoc (little_endian 4 (length s)) s rest)
      (rw (number-little_endian 4 (length s) (s ++ rest) fits) (take_bytes-append s rest))

-- The value of a constant can be written: of its type, and of a size that its field has room for.
abbrev pub FitsValue : ℕ → Value → Type 0
FitsValue t nil_value = ⊥
FitsValue t (bool_value b) = t ≡ type_bool
FitsValue t (int64_value n) = (t ≡ type_int64) × (n < span 8)
FitsValue t (float64_value n) = (t ≡ type_float64) × (n < span 8)
FitsValue t (string_value s) = (t ≡ type_string) × (length s < span 4)
FitsValue t other_value = ⊥

-- For bytes of a known type it is enough to read the bytes that are written.
of_type :
    (u t : ℕ) (v : Value) (w b rest : Bytes)
    → t ≡ u
    → value_bytes u v ≡ some w
    → read_value u (w ++ rest) ≡ some (v, rest)
    → value_bytes t v ≡ some b
    → read_value t (b ++ rest) ≡ some (v, rest)
of_type u t v w b rest same is reads e =
    let is' : value_bytes t v ≡ some w = subst (λ x. value_bytes x v ≡ some w) (sym same) is in
    let equal : w ≡ b = some-injective w b (sym is' ∙ e) in
    subst (λ x. read_value t (x ++ rest) ≡ some (v, rest)) equal
      (subst (λ x. read_value x (w ++ rest) ≡ some (v, rest)) (sym same) reads)

pub read_value-value_bytes :
    (t : ℕ) (v : Value) (b rest : Bytes)
    → FitsValue t v
    → value_bytes t v ≡ some b
    → read_value t (b ++ rest) ≡ some (v, rest)
unfolding read_value value_bytes number
read_value-value_bytes t nil_value b rest fits e = absurd fits
read_value-value_bytes t other_value b rest fits e = absurd fits
read_value-value_bytes t (bool_value true) b rest fits e =
    of_type 1 t (bool_value true) (1 ∷ []) b rest fits refl refl e
read_value-value_bytes t (bool_value false) b rest fits e =
    of_type 1 t (bool_value false) (0 ∷ []) b rest fits refl refl e
read_value-value_bytes t (int64_value n) b rest (is, fits) e =
    of_type 2 t (int64_value n) (little_endian 8 n) b rest is refl
      (rw (number-little_endian 8 n rest fits) refl) e
read_value-value_bytes t (float64_value n) b rest (is, fits) e =
    of_type 3 t (float64_value n) (little_endian 8 n) b rest is refl
      (rw (number-little_endian 8 n rest fits) refl) e
read_value-value_bytes t (string_value s) b rest (is, fits) e =
    of_type 4 t (string_value s) (write_string s) b rest is refl
      (rw (read_string-write_string s rest fits) refl) e

pub value_bytes-some :
    (t : ℕ) (v : Value) → FitsValue t v → (b : Bytes) × (value_bytes t v ≡ some b)
unfolding value_bytes
value_bytes-some t nil_value fits = absurd fits
value_bytes-some t other_value fits = absurd fits
value_bytes-some t (bool_value b) is = (write_bool b, ground (arith, is))
value_bytes-some t (int64_value n) (is, fits) = (little_endian 8 n, ground (arith, is))
value_bytes-some t (float64_value n) (is, fits) = (little_endian 8 n, ground (arith, is))
value_bytes-some t (string_value s) (is, fits) = (write_string s, ground (arith, is))
