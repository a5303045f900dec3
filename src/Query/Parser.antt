-- ===== src/Query/Parser.antt =====
-- `ParseQuery` of pkg/coordination/parser/parser.go on decoded JSON, with bool queries.
use quidditch.Common.{ℕ, suc, ◌+◌, String, true, false, Option, some, str_eq, if◌then◌else◌}
use quidditch.Common.Results.{Result, ok, err, ◌>>=◌, within}
use quidditch.Json.{
  Json, null, bool, num, str, arr, obj, Items, stop, item, Fields, end, entry, get,
}
use quidditch.Expression.Parser.{Numbers}
use quidditch.Query.Ast.{bool_query, Queries, nil, cons}
use quidditch.Query.Leaf.{
  QueryError, empty_query, query_not_object, not_object_or_array, several_types, body_not_object,
  in_clauses, Outcome, parse_leaf,
}

abbrev pub count_entries : Fields → ℕ
count_entries end = 0
count_entries (entry k v fs) = suc (count_entries fs)

-- A clause of a bool query: an array of queries, or one query, given what they parse to.
unfoldable pub clause_list : Json → Outcome → Result QueryError Queries → Result QueryError Queries
clause_list (arr xs) q qs = qs
clause_list (obj fs) q qs = q >>= λ x. ok (cons x nil)
clause_list _ q qs = err not_object_or_array

-- `minimum_should_match` as a number, and as a text.
abbrev pub min_number : Numbers → Option Json → ℕ
min_number nb (some (num n)) = nb.to_int n
min_number nb _ = 0

abbrev pub min_text : Option Json → String
min_text (some (str s)) = s
min_text _ = ""

unfoldable pub bool_of :
    ℕ
    → String
    → Result QueryError Queries
    → Result QueryError Queries
    → Result QueryError Queries
    → Result QueryError Queries
    → Outcome
bool_of n s must should must_not filter =
    must >>= λ m. should >>= λ sh. must_not >>= λ mn. filter >>= λ f. ok (bool_query m sh mn f n s)

module _ (nb : Numbers) where
  unfoldable mutual
    pub parse_query_value : Json → Outcome
    parse_query_value (obj end) = err empty_query
    parse_query_value (obj (entry k body end)) =
        let bools = parse_bool body in if str_eq k "bool" then bools else parse_leaf nb k body
    parse_query_value (obj (entry k body (entry j v fs))) =
        err (several_types (count_entries fs + 2))
    parse_query_value null = err query_not_object
    parse_query_value (bool b) = err query_not_object
    parse_query_value (num n) = err query_not_object
    parse_query_value (str s) = err query_not_object
    parse_query_value (arr xs) = err query_not_object

    pub parse_bool : Json → Outcome
    parse_bool (obj fs) =
        bool_of (min_number nb (get "minimum_should_match" fs))
          (min_text (get "minimum_should_match" fs)) (clauses "must" fs) (clauses "should" fs)
          (clauses "must_not" fs) (clauses "filter" fs)
    parse_bool null = err (body_not_object "bool")
    parse_bool (bool b) = err (body_not_object "bool")
    parse_bool (num n) = err (body_not_object "bool")
    parse_bool (str s) = err (body_not_object "bool")
    parse_bool (arr xs) = err (body_not_object "bool")

    -- The clauses under a key, none where the key is missing.
    pub clauses : String → Fields → Result QueryError Queries
    clauses k end = ok nil
    clauses k (entry j v fs) = elim (str_eq j k) [
      | true ↦ within (in_clauses k) (clause_list v (parse_query_value v) (array_items v))
      | false ↦ clauses k fs
    ]

    array_items : Json → Result QueryError Queries
    array_items (arr xs) = query_items xs
    array_items null = ok nil
    array_items (bool b) = ok nil
    array_items (num n) = ok nil
    array_items (str s) = ok nil
    array_items (obj fs) = ok nil

    -- The loop of `parseQueryArray`.
    pub query_items : Items → Result QueryError Queries
    query_items stop = ok nil
    query_items (item x xs) = parse_query_value x >>= λ q. query_items xs >>= λ qs. ok (cons q qs)

  -- `ParseQuery`
  abbrev pub parse_query : Fields → Outcome
  parse_query fs = parse_query_value (obj fs)
