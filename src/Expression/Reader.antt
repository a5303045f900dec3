-- ===== src/Expression/Reader.antt =====
-- A decoder of whole expressions for the bytes of pkg/coordination/expressions/serializer.go, for proofs about them.
use quidditch.Common.{
  ℕ, zero, suc, ◌+◌, ◌<◌, none, some, [], ◌∷◌, length, ◌==◌, if◌then◌else◌, ◌>>=◌,
}
use quidditch.Expression.Ast.{
  Bytes, Expr, Exprs, nil_expr, const, field, binary, unary, ternary, call, nil, cons, count,
}
use quidditch.Expression.Decoding.{Read, number, read_string, read_value, span, FitsValue}

abbrev pub read_const : Bytes → Read Expr
read_const [] = none
read_const (t ∷ bs) = read_value t bs >>= λ r. some (const r.0 t, r.1)

abbrev read_field : Bytes → Read Expr
read_field [] = none
read_field (t ∷ bs) = read_string bs >>= λ r. some (field r.0 t, r.1)

module _ (rd : Bytes → Read Expr) where
  abbrev read_binary : Bytes → Read Expr
  read_binary [] = none
  read_binary (op ∷ []) = none
  read_binary (op ∷ t ∷ bs) = rd bs >>= λ l. rd l.1 >>= λ r. some (binary op l.0 r.0 t, r.1)

  abbrev read_unary : Bytes → Read Expr
  read_unary [] = none
  read_unary (op ∷ []) = none
  read_unary (op ∷ t ∷ bs) = rd bs >>= λ e. some (unary op e.0 t, e.1)

  abbrev read_ternary : Bytes → Read Expr
  read_ternary [] = none
  read_ternary (t ∷ bs) =
      rd bs >>= λ c. rd c.1 >>= λ x. rd x.1 >>= λ y. some (ternary c.0 x.0 y.0 t, y.1)

  unfoldable pub read_all : ℕ → Bytes → Read Exprs
  read_all zero bs = some (nil, bs)
  read_all (suc n) bs = rd bs >>= λ e. read_all n e.1 >>= λ es. some (cons e.0 es.0, es.1)

  abbrev read_call : Bytes → Read Expr
  read_call [] = none
  read_call (f ∷ []) = none
  read_call (f ∷ t ∷ bs) =
      number 4 bs >>= λ n. read_all n.0 n.1 >>= λ es. some (call f es.0 t, es.1)

  abbrev read_node : ℕ → Bytes → Read Expr
  read_node tag bs =
      if tag == 1
      then read_const bs
      else if tag == 2
      then read_field bs
      else if tag == 3
      then read_binary bs
      else if tag == 4
      then read_unary bs
      else if tag == 5
      then read_ternary bs
      else if tag == 6
      then read_call bs
      else none

-- Reading an expression, on fuel.
unfoldable pub read : ℕ → Bytes → Read Expr
read zero bs = none
read (suc fuel) [] = none
read (suc fuel) (tag ∷ bs) = read_node (λ x. read fuel x) tag bs

-- The numbers of an expression fit the fields that the serializer writes, and its constants are of their types.
abbrev mutual
  pub Fits : Expr → Type 0
  Fits nil_expr = ⊥
  Fits (const v t) = FitsValue t v
  Fits (field p t) = (t < 256) × (length p < span 4)
  Fits (binary op l r t) = (op < 256) × (t < 256) × Fits l × Fits r
  Fits (unary op e t) = (op < 256) × (t < 256) × Fits e
  Fits (ternary c x y t) = (t < 256) × Fits c × Fits x × Fits y
  Fits (call f es t) = (f < 256) × (t < 256) × (count es < span 4) × FitsAll es

  pub FitsAll : Exprs → Type 0
  FitsAll nil = Unit
  FitsAll (cons e es) = Fits e × FitsAll es

-- The number of nodes, an upper bound of the depth.
abbrev mutual
  pub size : Expr → ℕ
  size nil_expr = 1
  size (const v t) = 1
  size (field p t) = 1
  size (binary op l r t) = size l + size r + 1
  size (unary op e t) = size e + 1
  size (ternary c x y t) = size c + size x + size y + 1
  size (call f es t) = size_all es + 1

  pub size_all : Exprs → ℕ
  size_all nil = 0
  size_all (cons e es) = size e + size_all es
