-- ===== src/Planner/Request.antt =====
-- `ConvertSearchRequest` of pkg/coordination/planner/converter.go. The estimated rows of a query are a parameter,
-- since selectivities are float64, and so are `strings.ToLower` and the conversion of a float64 to int.
use quidditch.Common.{
  ℕ, String, Bool, false, Option, none, some, List, [], ◌∷◌, ◌++◌, str_eq, if◌then◌else◌, ◌==◌,
  ◌||◌, lt64, Map,
}
use quidditch.Common.Results.{Result, ok, err, ◌>>=◌}
use quidditch.Json.{
  Json, bool, num, str, arr, obj, Items, stop, item, Fields, end, entry, get, as_string, as_number,
  as_array, or_zero,
}
use quidditch.Query.Ast.{Query, SearchRequest}
use quidditch.Planner.Plan.{SortField, Aggregation, Plan, scan, project, aggregate, sort, limit}
use quidditch.Planner.Values.{Value, json, int}
use quidditch.Planner.Convert.{convert}

pub data RequestError : Type 0 where
  query_failed body_not_object no_aggregations unsupported_source no_sort_fields : RequestError
  unsupported_aggregation : String → RequestError

-- The entries of `Params`, by the type of the aggregation.
abbrev size_params : (ℕ → ℕ) → Option ℕ → Map Value
size_params to_int none = ("size", int 10) ∷ []
size_params to_int (some n) = ("size", int (to_int n)) ∷ []

abbrev percents_params : Option Items → Map Value
percents_params none = []
percents_params (some xs) = ("percents", json (arr xs)) ∷ []

abbrev interval_params : Option ℕ → Map Value
interval_params none = []
interval_params (some n) = ("interval", json (num n)) ∷ []

abbrev text_params : String → Option String → Map Value
text_params k none = []
text_params k (some s) = (k, json (str s)) ∷ []

-- The types without parameters.
abbrev is_plain : String → Bool
is_plain t =
    str_eq t "stats"
    || str_eq t "extended_stats"
    || str_eq t "sum"
    || str_eq t "avg"
    || str_eq t "min"
    || str_eq t "max"
    || str_eq t "count"
    || str_eq t "cardinality"

abbrev params_of : (ℕ → ℕ) → String → Fields → Result RequestError (Map Value)
params_of to_int t b =
    if str_eq t "terms"
    then ok (size_params to_int (as_number (get "size" b)))
    else if is_plain t
    then ok []
    else if str_eq t "percentiles"
    then ok (percents_params (as_array (get "percents" b)))
    else if str_eq t "histogram"
    then ok (interval_params (as_number (get "interval" b)))
    else if str_eq t "date_histogram"
    then ok (
        text_params "interval" (as_string (get "interval" b))
        ++ text_params "calendar_interval" (as_string (get "calendar_interval" b))
        ++ text_params "fixed_interval" (as_string (get "fixed_interval" b)))
    else err (unsupported_aggregation t)

abbrev aggregation_of : String → String → Fields → Map Value → Aggregation Value
aggregation_of n t b ps = record {
  name = n;
  type_name = t;
  field = or_zero "" (as_string (get "field" b));
  params = ps;
}

unfoldable pub convert_aggregation :
    (ℕ → ℕ) → String → String → Json → Result RequestError (Aggregation Value)
convert_aggregation to_int n t (obj b) = params_of to_int t b >>= λ ps. ok (aggregation_of n t b ps)
convert_aggregation to_int n t _ = err body_not_object

unfoldable pub convert_types :
    (ℕ → ℕ) → String → Fields → Result RequestError (List (Aggregation Value))
convert_types to_int n end = ok []
convert_types to_int n (entry t b rest) =
    convert_aggregation to_int n t b >>= λ a. convert_types to_int n rest >>= λ as_. ok (a ∷ as_)

-- An entry that is not an object is skipped.
unfoldable pub convert_entries : (ℕ → ℕ) → Fields → Result RequestError (List (Aggregation Value))
convert_entries to_int end = ok []
convert_entries to_int (entry n (obj types) rest) =
    convert_types to_int n types >>= λ as_. convert_entries to_int rest >>= λ bs. ok (as_ ++ bs)
convert_entries to_int (entry n _ rest) = convert_entries to_int rest

abbrev pub convert_aggregations : (ℕ → ℕ) → Fields → Plan Value → Result RequestError (Plan Value)
convert_aggregations to_int fs child = convert_entries to_int fs >>= λ as_. elim as_ [
  | [] ↦ err no_aggregations
  | a ∷ more ↦ ok (aggregate [] (a ∷ more) child (some []))
]

-- The texts of an array.
unfoldable pub strings_of : Items → List String
strings_of stop = []
strings_of (item (str s) xs) = s ∷ strings_of xs
strings_of (item _ xs) = strings_of xs

abbrev pub source_fields : Json → Result RequestError (List String)
source_fields (bool b) = ok []
source_fields (str s) = ok (s ∷ [])
source_fields (arr xs) = ok (strings_of xs)
source_fields _ = err unsupported_source

-- No projection for no fields.
abbrev pub convert_source : Json → Plan Value → Result RequestError (Plan Value)
convert_source s child = source_fields s >>= λ fs. elim fs [
  | [] ↦ ok child
  | f ∷ more ↦ ok (project (f ∷ more) child (some []))
]

abbrev is_desc : (String → String) → Option String → Bool
is_desc lower none = false
is_desc lower (some s) = str_eq (lower s) "desc"

abbrev is_descending : (String → String) → Json → Bool
is_descending lower (str s) = is_desc lower (some s)
is_descending lower (obj o) = is_desc lower (as_string (get "order" o))
is_descending lower _ = false

unfoldable pub sort_entries : (String → String) → Fields → List SortField
sort_entries lower end = []
sort_entries lower (entry f o rest) =
    record { field = f; descending = is_descending lower o } ∷ sort_entries lower rest

unfoldable pub sort_fields : (String → String) → List Fields → List SortField
sort_fields lower [] = []
sort_fields lower (s ∷ ss) = sort_entries lower s ++ sort_fields lower ss

abbrev pub convert_sort :
    (String → String) → List Fields → Plan Value → Result RequestError (Plan Value)
convert_sort lower ss child = elim (sort_fields lower ss) [
  | [] ↦ err no_sort_fields
  | f ∷ fs ↦ ok (sort (f ∷ fs) child)
]

-- The scan with the converted query pushed into it.
abbrev pub scan_of :
    (Query → ℕ) → ℕ → Option Query → String → List ℕ → Result RequestError (Plan Value)
scan_of estimate rows none index shards = ok (scan index shards none rows)
scan_of estimate rows (some q) index shards = elim (convert q) [
  | none ↦ err query_failed
  | some e ↦ ok (scan index shards (some e) (estimate q))
]

abbrev pub requested : SearchRequest → Option Fields
requested r = elim r.aggregations [ some fs ↦ some fs | none ↦ r.aggs ]

abbrev pub add_aggregations :
    (ℕ → ℕ) → Option Fields → Plan Value → Result RequestError (Plan Value)
add_aggregations to_int none plan = ok plan
add_aggregations to_int (some end) plan = ok plan
add_aggregations to_int (some (entry n d rest)) plan =
    convert_aggregations to_int (entry n d rest) plan

abbrev pub add_source : Option Json → Plan Value → Result RequestError (Plan Value)
add_source none plan = ok plan
add_source (some s) plan = convert_source s plan

abbrev pub add_sort :
    (String → String) → List Fields → Plan Value → Result RequestError (Plan Value)
add_sort lower [] plan = ok plan
add_sort lower (s ∷ ss) plan = convert_sort lower (s ∷ ss) plan

abbrev pub add_limit : ℕ → ℕ → Plan Value → Plan Value
add_limit size from plan =
    if lt64 0 size || lt64 0 from then limit from (if size == 0 then 10 else size) plan else plan

module _ (estimate : Query → ℕ) (lower : String → String) (to_int : ℕ → ℕ)
    (default_cardinality : ℕ) where
  unfoldable pub convert_search_request :
      SearchRequest → String → List ℕ → Result RequestError (Plan Value)
  convert_search_request r index shards =
      scan_of estimate default_cardinality r.parsed_query index shards >>= λ scanned.
      add_aggregations to_int (requested r) scanned >>= λ aggregated.
      add_source r.source aggregated >>= λ projected.
      add_sort lower r.sort projected >>= λ sorted. ok (add_limit r.size r.from sorted)
