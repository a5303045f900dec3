-- ===== src/Expression/Ast.antt =====
-- Expression trees, pkg/coordination/expressions/ast.go. The enumerations are Go integers, so they are
-- numbers with named constants. A Go string is the list of its bytes; an int64 and a float64 are
-- their bit patterns.
use quidditch.Common.{ℕ, suc, Bool, List, leb, ◌==◌, ◌&&◌, ◌||◌}

abbrev pub Bytes : Type 0
Bytes = List ℕ

abbrev pub type_unknown : ℕ
type_unknown = 0

abbrev pub type_bool : ℕ
type_bool = 1

abbrev pub type_int64 : ℕ
type_int64 = 2

abbrev pub type_float64 : ℕ
type_float64 = 3

abbrev pub type_string : ℕ
type_string = 4

-- `IsArithmetic`, `IsComparison` and `IsLogical`: the operators from `+` to `pow`, from `==` to `>=`,
-- and `&&` and `||`.
abbrev pub is_arithmetic : ℕ → Bool
is_arithmetic op = leb 1 op && leb op 6

abbrev pub is_comparison : ℕ → Bool
is_comparison op = leb 7 op && leb op 12

abbrev pub is_logical : ℕ → Bool
is_logical op = (op == 13) || (op == 14)

-- The dynamic values of a constant.
pub data Value : Type 0 where
  nil_value : Value
  bool_value : Bool → Value
  int64_value float64_value : ℕ → Value
  string_value : Bytes → Value
  other_value : Value

-- The nodes, with the data type last; `nil_expr` is a nil interface.
mutual
  pub data Expr : Type 0 where
    nil_expr : Expr
    const : Value → ℕ → Expr
    field : Bytes → ℕ → Expr
    binary : ℕ → Expr → Expr → ℕ → Expr
    unary : ℕ → Expr → ℕ → Expr
    ternary : Expr → Expr → Expr → ℕ → Expr
    call : ℕ → Exprs → ℕ → Expr

  pub data Exprs : Type 0 where
    nil : Exprs
    cons : Expr → Exprs → Exprs

-- `DataType()`; on a nil interface it is not called.
abbrev pub data_type : Expr → ℕ
data_type nil_expr = 0
data_type (const v t) = t
data_type (field p t) = t
data_type (binary op l r t) = t
data_type (unary op e t) = t
data_type (ternary c a b t) = t
data_type (call f es t) = t

abbrev pub count : Exprs → ℕ
count nil = 0
count (cons e es) = let n = count es in suc n
