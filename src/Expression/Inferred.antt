-- ===== src/Expression/Inferred.antt =====
-- What every expression that pkg/coordination/expressions/parser.go parses is made of.
use quidditch.Common.{
  ℕ, suc, ◌≤◌, ◌≡◌, refl, String, Bool, true, false, str_eq, Option, none, some, ◌==◌, not, ◌&&◌,
  if◌then◌else◌, arith,
}
use quidditch.Common.Results.{Result, within, Gives, >>=-Gives, within-Gives}
use quidditch.Json.{
  Json, null, bool, num, str, arr, obj, Items, stop, item, Fields, end, entry, get, as_string,
}
use quidditch.Expression.Ast.{
  type_bool, type_int64, type_float64, type_string, Value, nil_value, bool_value, int64_value,
  float64_value, string_value, other_value, Expr, Exprs, nil_expr, const, field, binary, unary,
  ternary, call, nil, cons, data_type,
}
use quidditch.Expression.Parser.{
  Numbers, ParseError, Parsed, binary_operator, unary_operator, function_name, binary_result,
  function_result, field_type, if_object, if_argument, binary_op, unary_op, string_const,
  parse_const, parse_operator, parse_function, parse_map, parse_value, operand, arguments, array_of,
  parse_items, parse, in_left, in_right, in_operand, in_argument,
}

-- The dynamic type of a value is the type that is declared for it.
abbrev pub IsOf : ℕ → Value → Type 0
IsOf t nil_value = ⊥
IsOf t (bool_value b) = t ≡ type_bool
IsOf t (int64_value n) = t ≡ type_int64
IsOf t (float64_value n) = t ≡ type_float64
IsOf t (string_value s) = t ≡ type_string
IsOf t other_value = ⊥

-- Known operators and functions, with the result types that the parser infers; no ternaries.
abbrev mutual
  pub IsInferred : Expr → Type 0
  IsInferred nil_expr = ⊥
  IsInferred (const v t) = IsOf t v
  IsInferred (field p t) = (1 ≤ t) × (t ≤ 4)
  IsInferred (binary op l r t) =
      (1 ≤ op)
      × (op ≤ 14)
      × (t ≡ binary_result op (data_type l) (data_type r))
      × IsInferred l
      × IsInferred r
  IsInferred (unary op e t) =
      (op ≤ 1) × (t ≡ (if op == 1 then type_bool else data_type e)) × IsInferred e
  IsInferred (ternary c a b t) = ⊥
  IsInferred (call f es t) = (1 ≤ f) × (f ≤ 14) × (t ≡ function_result f es) × AreInferred es

  pub AreInferred : Exprs → Type 0
  AreInferred nil = Unit
  AreInferred (cons e es) = IsInferred e × AreInferred es

-- The same of a part of a map that may be missing.
abbrev GivesInferred : Parsed → Type 0
GivesInferred none = Unit
GivesInferred (some r) = Gives IsInferred r

abbrev GivesArguments : Option (Result ParseError Exprs) → Type 0
GivesArguments none = Unit
GivesArguments (some r) = Gives AreInferred r

if-le : (b : Bool) (x y n : ℕ) → x ≤ n → y ≤ n → (if b then x else y) ≤ n
if-le true x y n hx hy = hx
if-le false x y n hx hy = hy

binary_operator-le : (s : String) → binary_operator s ≤ 14
unfolding binary_operator
binary_operator-le s = if-le _ 1 _ 14 (omega arith) (
    if-le _ 2 _ 14 (omega arith) (
      if-le _ 3 _ 14 (omega arith) (
        if-le _ 4 _ 14 (omega arith) (
          if-le _ 5 _ 14 (omega arith) (
            if-le _ 6 _ 14 (omega arith) (
              if-le _ 7 _ 14 (omega arith) (
                if-le _ 8 _ 14 (omega arith) (
                  if-le _ 9 _ 14 (omega arith) (
                    if-le _ 10 _ 14 (omega arith) (
                      if-le _ 11 _ 14 (omega arith) (
                        if-le _ 12 _ 14 (omega arith) (
                          if-le _ 13 _ 14 (omega arith)
                            (if-le _ 14 0 14 (omega arith) (omega arith))))))))))))))

unary_operator-le : (s : String) → unary_operator s ≤ 1
unfolding unary_operator
unary_operator-le s = ground arith

function_name-le : (s : String) → function_name s ≤ 14
unfolding function_name
function_name-le s = if-le _ 1 _ 14 (omega arith) (
    if-le _ 2 _ 14 (omega arith) (
      if-le _ 3 _ 14 (omega arith) (
        if-le _ 4 _ 14 (omega arith) (
          if-le _ 5 _ 14 (omega arith) (
            if-le _ 6 _ 14 (omega arith) (
              if-le _ 7 _ 14 (omega arith) (
                if-le _ 8 _ 14 (omega arith) (
                  if-le _ 9 _ 14 (omega arith) (
                    if-le _ 10 _ 14 (omega arith) (
                      if-le _ 11 _ 14 (omega arith) (
                        if-le _ 12 _ 14 (omega arith) (
                          if-le _ 13 _ 14 (omega arith)
                            (if-le _ 14 0 14 (omega arith) (omega arith))))))))))))))

field_type_bounds : (o : Option String) → (1 ≤ field_type o) × (field_type o ≤ 4)
field_type_bounds none = omega arith
field_type_bounds (some s) = ground arith

binary_op-Gives :
    (op : ℕ) (l r : Parsed)
    → 1 ≤ op
    → op ≤ 14
    → GivesInferred l
    → GivesInferred r
    → Gives IsInferred (binary_op op l r)
unfolding binary_op
binary_op-Gives op none r low high hl hr = tt
binary_op-Gives op (some l) none low high hl hr = tt
binary_op-Gives op (some l) (some r) low high hl hr =
    >>=-Gives IsInferred IsInferred (within in_left l) _ (within-Gives IsInferred in_left l hl)
      λ x hx.
        >>=-Gives IsInferred IsInferred (within in_right r) _
          (within-Gives IsInferred in_right r hr) λ y hy. (low, high, refl, hx, hy)

unary_op-Gives : (op : ℕ) (o : Parsed) → op ≤ 1 → GivesInferred o → Gives IsInferred (unary_op op o)
unfolding unary_op
unary_op-Gives op none high h = tt
unary_op-Gives op (some r) high h =
    >>=-Gives IsInferred IsInferred (within in_operand r) _ (within-Gives IsInferred in_operand r h)
      λ x hx. (high, refl, hx)

-- What a value of an option or a test gives, given what both cases give.
if-Gives :
    (b : Bool) (x y : Result ParseError Expr)
    → ((b ≡ true) → Gives IsInferred x)
    → ((b ≡ false) → Gives IsInferred y)
    → Gives IsInferred (if b then x else y)
if-Gives true x y hx hy = hx refl
if-Gives false x y hx hy = hy refl

parse_operator-Gives :
    (s : String) (l r o : Parsed)
    → GivesInferred l
    → GivesInferred r
    → GivesInferred o
    → Gives IsInferred (parse_operator s l r o)
unfolding parse_operator
parse_operator-Gives s l r o hl hr ho =
    if-Gives (not (binary_operator s == 0)) _ _
      (λ known. binary_op-Gives (binary_operator s) l r (ground arith) (binary_operator-le s) hl hr)
      (λ _.
        if-Gives (not (unary_operator s == 0) && not (unary_operator s == 1)) _ _ (λ _. tt)
          (λ _. unary_op-Gives (unary_operator s) o (unary_operator-le s) ho))

parse_function-Gives :
    (s : String) (args : Option (Result ParseError Exprs))
    → GivesArguments args
    → Gives IsInferred (parse_function s args)
unfolding parse_function
parse_function-Gives s none h = if-Gives (function_name s == 0) _ _ (λ _. tt) (λ _. tt)
parse_function-Gives s (some r) h =
    if-Gives (function_name s == 0) _ _ (λ _. tt)
      λ known.
        >>=-Gives AreInferred IsInferred r _ h
          λ es hes. (ground arith, function_name-le s, refl, hes)

option-Gives :
    {A : Type 0} (o : Option A) (x : Result ParseError Expr) (f : A → Result ParseError Expr)
    → Gives IsInferred x
    → ((a : A) → Gives IsInferred (f a))
    → Gives IsInferred (elim o [ some a ↦ f a | none ↦ x ])
option-Gives none x f hx hf = hx
option-Gives (some a) x f hx hf = hf a

string_const-IsInferred : (s : String) (i f : Option ℕ) → IsInferred (string_const s i f)
string_const-IsInferred s (some n) f = refl
string_const-IsInferred s none (some n) = refl
string_const-IsInferred s none none = refl

pick-Gives :
    (b : Bool) (x y : Parsed)
    → GivesInferred x
    → GivesInferred y
    → GivesInferred (elim b [ true ↦ x | false ↦ y ])
pick-Gives true x y hx hy = hx
pick-Gives false x y hx hy = hy

pick_arguments :
    (b : Bool) (x y : Option (Result ParseError Exprs))
    → GivesArguments x
    → GivesArguments y
    → GivesArguments (elim b [ true ↦ x | false ↦ y ])
pick_arguments true x y hx hy = hx
pick_arguments false x y hx hy = hy

if_object-Gives :
    (v : Json) (r : Result ParseError Expr) → Gives IsInferred r → GivesInferred (if_object v r)
if_object-Gives null r h = tt
if_object-Gives (bool b) r h = tt
if_object-Gives (num n) r h = tt
if_object-Gives (str s) r h = tt
if_object-Gives (arr xs) r h = tt
if_object-Gives (obj fs) r h = h

if_argument-Gives :
    (i : ℕ) (v : Json) (r : Result ParseError Expr)
    → Gives IsInferred r
    → Gives IsInferred (if_argument i v r)
if_argument-Gives i null r h = tt
if_argument-Gives i (bool b) r h = tt
if_argument-Gives i (num n) r h = tt
if_argument-Gives i (str s) r h = tt
if_argument-Gives i (arr xs) r h = tt
if_argument-Gives i (obj fs) r h = within-Gives IsInferred (in_argument i) r h

module _ (nb : Numbers) where
  parse_const-Gives : (v : Json) → Gives IsInferred (parse_const nb v)
  unfolding parse_const
  parse_const-Gives null = tt
  parse_const-Gives (bool b) = refl
  parse_const-Gives (num n) = refl
  parse_const-Gives (str s) = string_const-IsInferred s (nb.parse_int s) (nb.parse_float s)
  parse_const-Gives (arr xs) = tt
  parse_const-Gives (obj fs) = tt

  parse_map-Gives :
      (fs : Fields) (l r o : Parsed) (args : Option (Result ParseError Exprs))
      → GivesInferred l
      → GivesInferred r
      → GivesInferred o
      → GivesArguments args
      → Gives IsInferred (parse_map nb fs l r o args)
  unfolding parse_map
  parse_map-Gives fs l r o args hl hr ho ha =
      option-Gives (as_string (get "op" fs)) _ _
        (option-Gives (get "const" fs) _ _
          (option-Gives (as_string (get "field" fs)) _ _
            (option-Gives (as_string (get "func" fs)) _ _ tt (λ s. parse_function-Gives s args ha))
            (λ p. field_type_bounds (as_string (get "type" fs))))
          parse_const-Gives)
        (λ s. parse_operator-Gives s l r o hl hr ho)

  mutual
    unfolding parse_value

    value-Gives : (v : Json) → Gives IsInferred (parse_value nb v)
    value-Gives (obj fs) =
        parse_map-Gives fs _ _ _ _ (operand-Gives "left" fs) (operand-Gives "right" fs)
          (operand-Gives "operand" fs) (arguments-Gives fs)
    value-Gives null = tt
    value-Gives (bool b) = tt
    value-Gives (num n) = tt
    value-Gives (str s) = tt
    value-Gives (arr xs) = tt

    operand-Gives : (k : String) (fs : Fields) → GivesInferred (operand nb k fs)
    operand-Gives k end = tt
    operand-Gives k (entry j v fs) =
        pick-Gives (str_eq j k) _ _ (if_object-Gives v _ (value-Gives v)) (operand-Gives k fs)

    arguments-Gives : (fs : Fields) → GivesArguments (arguments nb fs)
    arguments-Gives end = tt
    arguments-Gives (entry j v fs) =
        pick_arguments (str_eq j "args") _ _ (array-Gives v) (arguments-Gives fs)

    array-Gives : (v : Json) → GivesArguments (array_of nb v)
    array-Gives (arr xs) = items-Gives 0 xs
    array-Gives null = tt
    array-Gives (bool b) = tt
    array-Gives (num n) = tt
    array-Gives (str s) = tt
    array-Gives (obj fs) = tt

    items-Gives : (i : ℕ) (xs : Items) → Gives AreInferred (parse_items nb i xs)
    items-Gives i stop = tt
    items-Gives i (item x xs) =
        >>=-Gives IsInferred AreInferred _ _ (if_argument-Gives i x _ (value-Gives x))
          λ e he. >>=-Gives AreInferred AreInferred _ _ (items-Gives (suc i) xs) λ es hes. (he, hes)

  pub parse-Gives : (fs : Fields) → Gives IsInferred (parse nb fs)
  parse-Gives fs = value-Gives (obj fs)
