-- ===== src/Expression/Serializer.antt =====
-- `Serializer` of pkg/coordination/expressions/serializer.go: the bytes that are written, or `none` for
-- an error. `binary.Write` of the standard library writes numbers in little endian.
use quidditch.Common.{
  ℕ, zero, suc, ◌/◌, ◌%◌, Bool, true, false, Option, none, some, [], ◌∷◌, ◌++◌, length, ◌==◌,
  if◌then◌else◌, ◌>>=◌,
}
use quidditch.Expression.Ast.{
  Bytes, type_bool, type_int64, type_float64, type_string, Value, bool_value, int64_value,
  float64_value, string_value, Expr, Exprs, nil_expr, const, field, binary, unary, ternary, call,
  nil, cons, count,
}

-- The lowest `k` bytes of a number.
unfoldable pub little_endian : ℕ → ℕ → Bytes
little_endian zero n = []
little_endian (suc k) n = n % 256 ∷ little_endian k (n / 256)

abbrev pub byte : ℕ → ℕ
byte n = n % 256

abbrev pub write_bool : Bool → Bytes
write_bool true = 1 ∷ []
write_bool false = 0 ∷ []

abbrev pub write_string : Bytes → Bytes
write_string s = little_endian 4 (length s) ++ s

abbrev pub bool_bytes : Value → Option Bytes
bool_bytes (bool_value b) = some (write_bool b)
bool_bytes _ = none

abbrev pub int64_bytes : Value → Option Bytes
int64_bytes (int64_value n) = some (little_endian 8 n)
int64_bytes _ = none

abbrev pub float64_bytes : Value → Option Bytes
float64_bytes (float64_value n) = some (little_endian 8 n)
float64_bytes _ = none

abbrev pub string_bytes : Value → Option Bytes
string_bytes (string_value s) = some (write_string s)
string_bytes _ = none

-- The switch of `serializeConst` on the declared data type.
unfoldable pub value_bytes : ℕ → Value → Option Bytes
value_bytes t v =
    if t == type_bool
    then bool_bytes v
    else if t == type_int64
    then int64_bytes v
    else if t == type_float64
    then float64_bytes v
    else if t == type_string
    then string_bytes v
    else none

unfoldable mutual
  -- `serializeNode`
  pub serialize : Expr → Option Bytes
  serialize nil_expr = none
  serialize (const v t) = do b ← value_bytes t v; some (1 ∷ byte t ∷ b)
  serialize (field p t) = some (2 ∷ byte t ∷ write_string p)
  serialize (binary op l r t) = do
    a ← serialize l
    b ← serialize r
    some (3 ∷ byte op ∷ byte t ∷ a ++ b)
  serialize (unary op e t) = do a ← serialize e; some (4 ∷ byte op ∷ byte t ∷ a)
  serialize (ternary c x y t) = do
    a ← serialize c
    b ← serialize x
    d ← serialize y
    some (5 ∷ byte t ∷ a ++ (b ++ d))
  serialize (call f es t) = do
    a ← serialize_all es
    some (6 ∷ byte f ∷ byte t ∷ little_endian 4 (count es) ++ a)

  -- The loop over the arguments.
  pub serialize_all : Exprs → Option Bytes
  serialize_all nil = some []
  serialize_all (cons e es) = do a ← serialize e; b ← serialize_all es; some (a ++ b)
