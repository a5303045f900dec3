-- ===== src/Query/Tests.antt =====
-- Queries of pkg/coordination/parser at concrete inputs.
use quidditch.Common.{◌≡◌, refl, Bool, true, false, none, some, [], ◌∷◌, ◌&&◌, inl, arith}
use quidditch.Common.Results.{ok}
use quidditch.Json.{str, num, obj, Fields, entry, end, get, single}
use quidditch.Expression.Ast.{Expr, Bytes, binary, field, const, float64_value}
use quidditch.Expression.Parser.{
  Numbers, parse_value, parse_map, parse_operator, parse_const, binary_operator, binary_op,
  binary_result,
}
use quidditch.Expression.Validator.{validate, validate_const, validate_field, binary_types}
use quidditch.Expression.Serializer.{little_endian, value_bytes, serialize}
use quidditch.Expression.Typing.{IsTyped}
use quidditch.Query.Ast.{Query, match, term, exists, bool_query, expression, nil, cons}
use quidditch.Query.Leaf.{match_value, parse_leaf, expression_body, checked_expression}
use quidditch.Query.Parser.{parse_query_value}
use quidditch.Query.Printer.{print}
use quidditch.Query.RoundTrip.{parse_query-print}
use quidditch.Query.Expressions.{expression_body-prefix_free}
use quidditch.Query.Simplify.{simplify}
use quidditch.Query.Checks.{validate_query, query_fields, complexity, can_use_filter}
use quidditch.Query.Meaning.{holds, all_hold, none_hold, simplify-holds, simplify-drops}

abbrev numbers : Numbers
numbers = record { parse_int = λ s. none; parse_float = λ s. none; to_int = λ n. n }

abbrev by_term : Query
by_term = term "status" (str "open") 0

abbrev by_text : Query
by_text = match "title" "go" "and" 0 ""

abbrev nested : Query
nested = bool_query (cons by_text nil) nil nil nil 0 ""

-- Must clauses of which one is a bool query, and a should clause.
abbrev sample : Query
sample = bool_query (cons by_term (cons nested nil)) (cons (exists "price") nil) nil nil 1 ""

parse_query-print_example : parse_query_value numbers (print (λ n. n) sample) ≡ ok sample
parse_query-print_example =
    parse_query-print numbers (λ n. n) (λ n small. refl) sample
      (
        omega arith,
        inl refl,
        (tt, ((omega arith, inl refl, (tt, tt), tt, tt, tt), tt)),
        (tt, tt),
        tt,
        tt,
      )

-- Two entries: which of the two fields is searched depends on the order in which the map is visited.
two_fields :
    parse_query_value numbers
      (obj (single "match" (obj (entry "a" (str "x") (entry "b" (str "y") end)))))
    ≡ ok (match "a" "x" "" 0 "")
unfolding parse_query_value parse_leaf match_value
two_fields = refl

sample-checks :
    (validate_query sample ≡ none) × (complexity sample ≡ 70) × (can_use_filter sample ≡ false)
unfolding validate_query complexity can_use_filter
sample-checks = (refl, refl, refl)

sample-fields : query_fields sample ≡ "status" ∷ "title" ∷ "price" ∷ []
unfolding query_fields
sample-fields = refl

abbrev above : Expr
above = binary 11 (field (97 ∷ 98 ∷ []) 3) (const (float64_value 7) 3) 1

abbrev above_bytes : Bytes
above_bytes =
    3 ∷ 11 ∷ 1 ∷ 2 ∷ 3 ∷ 2 ∷ 0 ∷ 0 ∷ 0 ∷ 97 ∷ 98 ∷ 1 ∷ 3 ∷ 7 ∷ 0 ∷ 0 ∷ 0 ∷ 0 ∷ 0 ∷ 0 ∷ 0 ∷ []

-- `{"op": ">", "left": {"field": "ab"}, "right": {"const": 7}}`
abbrev above_map : Fields
above_map = entry "op" (str ">") (
    entry "left" (obj (single "field" (str "ab")))
      (entry "right" (obj (single "const" (num 7))) end))

above-body : expression_body numbers above_map ≡ ok (expression above above_bytes)
unfolding expression_body checked_expression parse_value parse_map parse_operator parse_const
    binary_operator binary_op binary_result get validate validate_const validate_field binary_types
    serialize value_bytes little_endian
above-body = refl

-- One byte behind those of the expression.
abbrev behind : Bytes
behind = 9 ∷ []

expression_body-prefix_free_example :
    IsTyped above × (serialize above ≡ some above_bytes) × (above ≡ above) × (behind ≡ behind)
expression_body-prefix_free_example =
    expression_body-prefix_free numbers above_map above_map above above above_bytes above_bytes
      behind behind above-body above-body (omega arith, omega arith) (omega arith, omega arith) refl

-- Every document is open, and no title says go.
abbrev leaf : Query → Bool
leaf (term f v b) = true
leaf _ = false

simplify-holds_example :
    holds leaf
      (λ s n. 0)
      (simplify (cons by_term (cons nested nil)) (cons (exists "price") nil) nil nil 1 "")
    ≡ holds leaf (λ s n. 0) sample
simplify-holds_example =
    simplify-holds leaf (λ s n. 0) (cons by_term (cons nested nil)) (cons (exists "price") nil) nil
      nil 1 "" (tt, ((refl, refl, refl, refl, refl), tt))

simplify-drops_example :
    (holds leaf
        (λ s n. 0)
        (simplify
          (cons (bool_query (cons by_term nil) nil (cons by_term nil) (cons by_text nil) 0 "") nil)
          nil
          nil
          nil
          0
          "")
      ≡ all_hold leaf (λ s n. 0) (cons by_term nil))
    × (holds leaf
          (λ s n. 0)
          (bool_query
            (cons
              (bool_query (cons by_term nil) nil (cons by_term nil) (cons by_text nil) 0 "")
              nil)
            nil
            nil
            nil
            0
            "")
        ≡ (all_hold leaf (λ s n. 0) (cons by_term nil)
            && (all_hold leaf (λ s n. 0) (cons by_text nil)
                && none_hold leaf (λ s n. 0) (cons by_term nil))))
simplify-drops_example =
    simplify-drops leaf (λ s n. 0) (cons by_term nil) (cons by_term nil) (cons by_text nil)
