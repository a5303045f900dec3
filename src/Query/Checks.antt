-- ===== src/Query/Checks.antt =====
-- `Validate` of pkg/coordination/parser/parser.go, and the measures of queries in types.go.
use quidditch.Common.{
  ℕ, suc, ◌+◌, ◌*◌, String, Bool, true, false, Option, none, some, List, [], ◌∷◌, ◌++◌, length,
  str_eq, ◌&&◌,
}
use quidditch.Json.{Json, null, Items, stop, item}
use quidditch.Expression.Ast.{Expr, nil_expr}
use quidditch.Query.Ast.{
  Query, match, match_phrase, multi_match, query_string, term, terms, range, exists, prefix,
  wildcard, fuzzy, bool_query, match_all, expression, wasm_udf, Queries, nil, cons,
}

pub data Fault : Type 0 where
  empty_field : String → Fault
  empty_text nil_value no_clauses no_conditions no_expression no_bytes no_name : Fault

abbrev pub is_null : Json → Bool
is_null null = true
is_null _ = false

abbrev pub is_nil : Queries → Bool
is_nil nil = true
is_nil (cons q qs) = false

abbrev pub is_empty {ℓ} : {A : Type ℓ} → List A → Bool
is_empty [] = true
is_empty (x ∷ xs) = false

abbrev pub is_nil_expr : Expr → Bool
is_nil_expr nil_expr = true
is_nil_expr _ = false

-- `if condition { return error }`, before what follows.
abbrev pub reject : Bool → Fault → Option Fault → Option Fault
reject true e rest = some e
reject false e rest = rest

-- `if err := ...; err != nil { return err }`
abbrev pub first_fault : Option Fault → Option Fault → Option Fault
first_fault (some e) rest = some e
first_fault none rest = rest

unfoldable mutual
  pub validate_query : Query → Option Fault
  validate_query (match f q op b a) =
      reject (str_eq f "") (empty_field "match") (reject (str_eq q "") empty_text none)
  validate_query (term f v b) =
      reject (str_eq f "") (empty_field "term") (reject (is_null v) nil_value none)
  validate_query (bool_query m sh mn f n s) =
      reject (is_nil m && is_nil sh && is_nil mn && is_nil f) no_clauses (
        first_fault (validate_queries m) (
          first_fault (validate_queries sh)
            (first_fault (validate_queries mn) (validate_queries f))))
  validate_query (range f gt gte lt lte b) =
      reject (str_eq f "") (empty_field "range")
        (reject (is_null gt && is_null gte && is_null lt && is_null lte) no_conditions none)
  validate_query (expression e b) =
      reject (is_nil_expr e) no_expression (reject (is_empty b) no_bytes none)
  validate_query (wasm_udf n v ps) = reject (str_eq n "") no_name none
  validate_query (match_phrase f q n) = none
  validate_query (multi_match q fs t) = none
  validate_query (query_string q d fs) = none
  validate_query (terms f xs) = none
  validate_query (exists f) = none
  validate_query (prefix f v) = none
  validate_query (wildcard f v) = none
  validate_query (fuzzy f v z) = none
  validate_query (match_all b) = none

  -- A loop over the sub-queries.
  pub validate_queries : Queries → Option Fault
  validate_queries nil = none
  validate_queries (cons q qs) = first_fault (validate_query q) (validate_queries qs)

-- `GetQueryFields`
unfoldable mutual
  pub query_fields : Query → List String
  query_fields (match f q op b a) = f ∷ []
  query_fields (match_phrase f q n) = f ∷ []
  query_fields (multi_match q fs t) = fs
  query_fields (query_string q d fs) = []
  query_fields (term f v b) = f ∷ []
  query_fields (terms f xs) = f ∷ []
  query_fields (range f gt gte lt lte b) = f ∷ []
  query_fields (exists f) = f ∷ []
  query_fields (prefix f v) = f ∷ []
  query_fields (wildcard f v) = f ∷ []
  query_fields (fuzzy f v z) = f ∷ []
  query_fields (bool_query m sh mn f n s) =
      all_fields m ++ (all_fields sh ++ (all_fields mn ++ all_fields f))
  query_fields (match_all b) = []
  query_fields (expression e b) = []
  query_fields (wasm_udf n v ps) = []

  pub all_fields : Queries → List String
  all_fields nil = []
  all_fields (cons q qs) = query_fields q ++ all_fields qs

abbrev pub count_items : Items → ℕ
count_items stop = 0
count_items (item x xs) = suc (count_items xs)

-- `EstimateComplexity`
unfoldable mutual
  pub complexity : Query → ℕ
  complexity (match f q op b a) = 50
  complexity (match_phrase f q n) = 50
  complexity (multi_match q fs t) = 50 * length fs
  complexity (query_string q d fs) = 100
  complexity (term f v b) = 10
  complexity (terms f xs) = 10 * count_items xs
  complexity (range f gt gte lt lte b) = 20
  complexity (exists f) = 10
  complexity (prefix f v) = 100
  complexity (wildcard f v) = 100
  complexity (fuzzy f v z) = 200
  complexity (bool_query m sh mn f n s) =
      total_complexity m + total_complexity sh + total_complexity mn + total_complexity f
  complexity (match_all b) = 1
  complexity (expression e b) = 10
  complexity (wasm_udf n v ps) = 40

  pub total_complexity : Queries → ℕ
  total_complexity nil = 0
  total_complexity (cons q qs) = complexity q + total_complexity qs

-- `CanUseFilter`, which does not look at the filter clauses.
unfoldable mutual
  pub can_use_filter : Query → Bool
  can_use_filter (match f q op b a) = false
  can_use_filter (match_phrase f q n) = false
  can_use_filter (multi_match q fs t) = false
  can_use_filter (query_string q d fs) = false
  can_use_filter (term f v b) = true
  can_use_filter (terms f xs) = true
  can_use_filter (range f gt gte lt lte b) = true
  can_use_filter (exists f) = true
  can_use_filter (prefix f v) = true
  can_use_filter (wildcard f v) = false
  can_use_filter (fuzzy f v z) = false
  can_use_filter (bool_query m sh mn f n s) = can_all m && can_all sh && can_all mn
  can_use_filter (match_all b) = false
  can_use_filter (expression e b) = true
  can_use_filter (wasm_udf n v ps) = true

  pub can_all : Queries → Bool
  can_all nil = true
  can_all (cons q qs) = let rest = can_all qs in can_use_filter q && rest
