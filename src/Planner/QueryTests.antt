-- ===== src/Planner/QueryTests.antt =====
-- Queries that pkg/coordination/planner converts, sends and evaluates, and its operations on rows, at concrete inputs.
use quidditch.Common.{
  ℕ, ◌+◌, ◌-◌, ◌^◌, ◌≡◌, refl, Bool, true, false, String, Option, none, some, List, [], ◌∷◌, arith,
  str_eq, ltb, leb, ◌&&◌, length, if◌then◌else◌,
}
use quidditch.Common.Results.{ok}
use quidditch.Json.{Json, str, num, arr, item, stop, Fields, entry, end, get}
use quidditch.Expression.Parser.{Numbers}
use quidditch.Query.Ast as Dsl
use quidditch.Query.Ast.{SearchRequest, Query, term, exists, bool_query, Queries}
use quidditch.Query.Parser.{parse_query_value}
use quidditch.Planner.Plan as Logical
use quidditch.Planner.Plan.{nil, cons}
use quidditch.Planner.Rules.{combine_filters, has_field, default_rules}
use quidditch.Planner.Optimizer.{Optimizer}
use quidditch.Planner.Meaning.{Engine}
use quidditch.Planner.Values.{Value, json, Condition}
use quidditch.Planner.Convert.{leaf, any_of, convert}
use quidditch.Planner.Execution.{to_map, evaluate, apply_filter, kept}
use quidditch.Planner.Sent.{convert-sent, convert-sent_must}
use quidditch.Planner.Rows.{apply_limit, apply_limit-take}
use quidditch.Common.Slices.{take, drop, slice}

abbrev numbers : Numbers
numbers = record { parse_int = λ s. none; parse_float = λ s. none; to_int = λ n. n }

abbrev open_term : Query
open_term = term "status" (str "open") 0

abbrev clauses : Queries
clauses = Dsl.cons open_term (Dsl.cons (exists "price") Dsl.nil)

abbrev alternatives : Query
alternatives = bool_query Dsl.nil clauses Dsl.nil Dsl.nil 0 ""

abbrev conjunction : Query
conjunction = bool_query clauses Dsl.nil Dsl.nil Dsl.nil 0 ""

convert-sent_example :
    (e : Condition) × (convert alternatives ≡ some e)
    × (parse_query_value numbers (to_map (λ n. num n) e) ≡ ok alternatives)
convert-sent_example =
    convert-sent numbers (λ n. num n) alternatives ((tt, refl), (tt, tt), refl, refl)

convert-sent_must_example :
    (e : Condition) × (convert conjunction ≡ some e)
    × (parse_query_value numbers (to_map (λ n. num n) e) ≡ ok alternatives)
convert-sent_must_example =
    convert-sent_must numbers (λ n. num n) clauses 0 "" ((tt, refl), (tt, tt)) (omega arith)

-- Equality of texts.
abbrev same : Json → Option Value → Option Bool
same (str s) (some (json (str t))) = some (str_eq s t)
same _ _ = none

abbrev is_open : Condition
is_open = leaf Logical.term "status" (some (json (str "open")))

abbrev is_red : Condition
is_red = leaf Logical.term "color" (some (json (str "red")))

abbrev red_row : Fields
red_row = entry "status" (str "closed") (entry "color" (str "red") end)

combined :
    combine_filters (some is_open) (some is_red) ≡ some (any_of (cons is_open (cons is_red nil)))
unfolding combine_filters
combined = refl

-- The closed row passes the combined filter, and would not pass the two in turn.
red_row_passes :
    (apply_filter same (some (any_of (cons is_open (cons is_red nil)))) (red_row ∷ [])
      ≡ some (red_row ∷ []))
    × (apply_filter same (some is_open) (red_row ∷ []) ≡ some [])
unfolding apply_filter evaluate get kept
red_row_passes = (refl, refl)

abbrev rows : List ℕ
rows = 1 ∷ 2 ∷ 3 ∷ []

apply_limit-take_example : apply_limit rows 1 (2 ^ 63 - 1) ≡ (
    if ltb 1 (length rows) && leb (2 ^ 63) (1 + (2 ^ 63 - 1))
    then none
    else some (take (2 ^ 63 - 1) (drop 1 rows)))
apply_limit-take_example =
    apply_limit-take rows 1 (2 ^ 63 - 1) (omega arith) (omega arith) (omega arith)

second_row : apply_limit rows 1 1 ≡ some (2 ∷ [])
unfolding apply_limit slice
second_row = refl

-- A whole request: the query goes into the scan, and a missing size is 10.
abbrev page_request : SearchRequest
page_request = record {
  parsed_query = some open_term;
  size = 0;
  from = 5;
  sort = entry "price" (str "DESC") end ∷ [];
  source = some (arr (item (str "title") stop));
  aggregations = none;
  aggs = none;
}

abbrev page_logical : Logical.Plan Value
page_logical = Logical.limit 5 10 (
    Logical.sort (record { field = "price"; descending = true } ∷ []) (
      Logical.project ("title" ∷ []) (Logical.scan "books" (0 ∷ 1 ∷ []) (some is_open) 10)
        (some [])))

-- An engine over the filter of the coordination node; a comparison that panics is no match.
abbrev accepted : Option Bool → Bool
accepted (some b) = b
accepted none = false

abbrev only : List String → Fields → Fields
only [] row = row
only (f ∷ fs) end = end
only (f ∷ fs) (entry n v row) =
    let rest = only (f ∷ fs) row in if has_field n (f ∷ fs) then entry n v rest else rest

abbrev engine : Engine Value
engine = record {
  Row = Fields;
  rows_of = λ index shards. red_row ∷ [];
  holds = λ c row. accepted (evaluate same row c);
  pick = only;
  summarize = λ groups aggs rows. [];
  order = λ by rows. rows;
  page = λ offset n rows. take n (drop offset rows);
}

abbrev optimizer : Optimizer Value
optimizer = record { rules = default_rules; max_passes = 10; cost_based = true }
