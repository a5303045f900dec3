-- ===== src/Query/Leaf.antt =====
-- The queries of pkg/coordination/parser/parser.go that hold no queries, parsed from decoded JSON. A loop over
-- a map that returns in its first round takes the first entry.
use quidditch.Common.{ℕ, String, none, some, List, [], ◌∷◌, str_eq, if◌then◌else◌}
use quidditch.Common.Results.{Result, ok, err, ◌>>=◌, within}
use quidditch.Json.{
  Json, null, str, arr, obj, Items, stop, item, Fields, end, entry, get, as_string, as_number,
  as_object, as_array, or_zero,
}
use quidditch.Expression.Ast.{Expr}
use quidditch.Expression.Parser.{Numbers, ParseError, parse}
use quidditch.Expression.Validator.{Invalid, validate}
use quidditch.Expression.Serializer.{serialize}
use quidditch.Query.Ast.{
  Query, match, match_phrase, multi_match, query_string, term, terms, range, exists, prefix,
  wildcard, fuzzy, match_all, expression, wasm_udf,
}

-- The errors, with the type of the query where the message names it.
pub data QueryError : Type 0 where
  empty_query not_serialized query_not_object not_object_or_array : QueryError
  several_types : ℕ → QueryError
  unsupported body_not_object invalid_value no_field missing_text : String → QueryError
  missing_fields not_array : QueryError
  in_clauses : String → QueryError → QueryError
  bad_expression : ParseError → QueryError
  rejected : Invalid → QueryError

abbrev pub Outcome : Type 0
Outcome = Result QueryError Query

-- The assertion that a body is an object, and the first entry of it.
abbrev pub with_object : String → Json → (Fields → Outcome) → Outcome
with_object kind (obj fs) k = k fs
with_object kind _ k = err (body_not_object kind)

abbrev pub first_field : String → Json → (String → Json → Outcome) → Outcome
first_field kind (obj (entry f v fs)) k = k f v
first_field kind (obj end) k = err (no_field kind)
first_field kind _ k = err (body_not_object kind)

-- Optional entries of a body, with the zero values of their types.
abbrev pub text_at : String → Fields → String
text_at k fs = or_zero "" (as_string (get k fs))

abbrev pub number_at : String → Fields → ℕ
number_at k fs = or_zero 0 (as_number (get k fs))

abbrev pub value_at : String → Fields → Json
value_at k fs = or_zero null (get k fs)

unfoldable pub match_value : String → Json → Outcome
match_value f (str s) = ok (match f s "" 0 "")
match_value f (obj v) = ok (
    match f (text_at "query" v) (text_at "operator" v) (number_at "boost" v) (text_at "analyzer" v))
match_value f _ = err (invalid_value "match")

unfoldable pub phrase_value : Numbers → String → Json → Outcome
phrase_value nb f (str s) = ok (match_phrase f s 0)
phrase_value nb f (obj v) = ok (
    match_phrase f (text_at "query" v)
      (or_zero 0 (elim (as_number (get "slop" v)) [ some n ↦ some (nb.to_int n) | none ↦ none ])))
phrase_value nb f _ = err (invalid_value "match_phrase")

unfoldable pub term_value : String → Json → Outcome
term_value f (obj v) = ok (term f (value_at "value" v) (number_at "boost" v))
term_value f v = ok (term f v 0)

unfoldable pub terms_value : String → Json → Outcome
terms_value f (arr xs) = ok (terms f xs)
terms_value f _ = err not_array

unfoldable pub range_value : String → Json → Outcome
range_value f (obj v) = ok (
    range f (value_at "gt" v) (value_at "gte" v) (value_at "lt" v) (value_at "lte" v)
      (number_at "boost" v))
range_value f _ = err (invalid_value "range")

unfoldable pub prefix_value : String → Json → Outcome
prefix_value f (str s) = ok (prefix f s)
prefix_value f (obj v) = ok (prefix f (text_at "value" v))
prefix_value f _ = err (invalid_value "prefix")

unfoldable pub wildcard_value : String → Json → Outcome
wildcard_value f (str s) = ok (wildcard f s)
wildcard_value f (obj v) = ok (wildcard f (text_at "value" v))
wildcard_value f _ = err (invalid_value "wildcard")

unfoldable pub fuzzy_value : String → Json → Outcome
fuzzy_value f (str s) = ok (fuzzy f s "")
fuzzy_value f (obj v) = ok (fuzzy f (text_at "value" v) (text_at "fuzziness" v))
fuzzy_value f _ = err (invalid_value "fuzzy")

-- `fields[i]`, which stays empty where the element is not a string.
unfoldable pub field_names : Items → List String
field_names stop = []
field_names (item x xs) = or_zero "" (as_string (some x)) ∷ field_names xs

unfoldable pub multi_match_body : Fields → Outcome
multi_match_body fs = elim (as_string (get "query" fs)) [
  | none ↦ err (missing_text "multi_match")
  | some q ↦ elim (as_array (get "fields" fs)) [
    | none ↦ err missing_fields
    | some xs ↦ ok (multi_match q (field_names xs) (text_at "type" fs))
  ]
]

unfoldable pub query_string_body : Fields → Outcome
query_string_body fs = elim (as_string (get "query" fs)) [
  | none ↦ err (missing_text "query_string")
  | some q ↦ ok (
      query_string q (text_at "default_field" fs) (
        or_zero []
          (elim (as_array (get "fields" fs)) [ some xs ↦ some (field_names xs) | none ↦ none ])))
]

unfoldable pub exists_body : Fields → Outcome
exists_body fs = elim (as_string (get "field" fs)) [
  | none ↦ err (no_field "exists")
  | some f ↦ ok (exists f)
]

unfoldable pub match_all_body : Json → Outcome
match_all_body (obj fs) = ok (match_all (number_at "boost" fs))
match_all_body _ = ok (match_all 0)

-- `parameters`, or `params` where that is no object.
unfoldable pub wasm_parameters : Fields → Fields
wasm_parameters fs = elim (as_object (get "parameters" fs)) [
  | some ps ↦ ps
  | none ↦ or_zero end (as_object (get "params" fs))
]

unfoldable pub wasm_udf_body : Fields → Outcome
wasm_udf_body fs = elim (as_string (get "name" fs)) [
  | none ↦ err (no_field "wasm_udf")
  | some n ↦ ok (wasm_udf n (text_at "version" fs) (wasm_parameters fs))
]

-- The validator and the serializer in turn, of a parsed expression.
unfoldable pub checked_expression : Expr → Outcome
checked_expression e = elim (validate e) [
  | some i ↦ err (rejected i)
  | none ↦ elim (serialize e) [ some b ↦ ok (expression e b) | none ↦ err not_serialized ]
]

unfoldable pub expression_body : Numbers → Fields → Outcome
expression_body nb fs = within bad_expression (parse nb fs) >>= checked_expression

-- The cases of the switch on the type of the query, but `bool`.
unfoldable pub parse_leaf : Numbers → String → Json → Outcome
parse_leaf nb k body =
    if str_eq k "match"
    then first_field k body match_value
    else if str_eq k "match_phrase"
    then first_field k body (phrase_value nb)
    else if str_eq k "multi_match"
    then with_object k body multi_match_body
    else if str_eq k "term"
    then first_field k body term_value
    else if str_eq k "terms"
    then first_field k body terms_value
    else if str_eq k "range"
    then first_field k body range_value
    else if str_eq k "match_all"
    then match_all_body body
    else if str_eq k "exists"
    then with_object k body exists_body
    else if str_eq k "prefix"
    then first_field k body prefix_value
    else if str_eq k "wildcard"
    then first_field k body wildcard_value
    else if str_eq k "fuzzy"
    then first_field k body fuzzy_value
    else if str_eq k "query_string"
    then with_object k body query_string_body
    else if str_eq k "expr"
    then with_object k body (expression_body nb)
    else if str_eq k "wasm_udf"
    then with_object k body wasm_udf_body
    else err (unsupported k)
