-- ===== src/Expression/Operators.antt =====
-- Operators that pkg/coordination/expressions/parser.go does not know.
use quidditch.Common.{◌≡◌, ◌∙◌, String, false, Option, some, ◌||◌, str_eq, arith}
use quidditch.Common.Results.{Result, ok}
use quidditch.Json.{Fields, get, as_string}
use quidditch.Expression.Ast.{Expr, Exprs, unary, data_type}
use quidditch.Expression.Parser.{
  Numbers, ParseError, Parsed, binary_operator, unary_operator, unary_op, parse_operator, parse_map,
  parse_value, operand, parse,
}

parse_operator-unknown :
    (s : String) (l r : Parsed) (e : Expr)
    → binary_operator s ≡ 0
    → (str_eq s "!" || str_eq s "not") ≡ false
    → parse_operator s l r (some (ok e)) ≡ ok (unary 0 e (data_type e))
unfolding parse_operator unary_op unary_operator
parse_operator-unknown s l r e no_binary no_not = ground arith

parse_map-op :
    (nb : Numbers) (fs : Fields) (l r o : Parsed) (args : Option (Result ParseError Exprs))
    (s : String)
    → as_string (get "op" fs) ≡ some s
    → parse_map nb fs l r o args ≡ parse_operator s l r o
unfolding parse_map
parse_map-op nb fs l r o args s op = ground arith

-- A map whose `op` is a text that is neither a binary operator nor a logical not, whatever it says, is parsed as the
-- negation of its operand: the error of an unknown operator is not reached.
pub unknown_operator-negates :
    (nb : Numbers) (fs : Fields) (s : String) (e : Expr)
    → as_string (get "op" fs) ≡ some s
    → binary_operator s ≡ 0
    → (str_eq s "!" || str_eq s "not") ≡ false
    → operand nb "operand" fs ≡ some (ok e)
    → parse nb fs ≡ ok (unary 0 e (data_type e))
unfolding parse_value
unknown_operator-negates nb fs s e op no_binary no_not found =
    parse_map-op nb fs _ _ _ _ s op ∙ rw found (parse_operator-unknown s _ _ e no_binary no_not)
