-- ===== src/Executor/Merge.antt =====
-- The merge of aggregations in pkg/coordination/executor/aggregator.go. A loop over a map visits its entries in
-- their order.
use quidditch.Common.{
  ℕ, String, true, false, Option, none, some, List, [], ◌∷◌, ◌++◌, map, str_eq, ◌||◌, if◌then◌else◌,
  Map, lookup, insert, add64,
}
use quidditch.Executor.Answers.{Floats, Bucket, Aggregation, new_aggregation, Response}
use quidditch.Executor.Metrics.{merge_stats, merge_percentiles, merge_cardinality, merge_metric}

-- A missing key of a map of numbers reads as 0.
abbrev pub count_of : Option ℕ → ℕ
count_of none = 0
count_of (some n) = n

-- `bucketCounts[bucket.Key] += bucket.DocCount`, for all buckets of one aggregation, and of all.
unfoldable pub count_buckets : List Bucket → Map ℕ → Map ℕ
count_buckets [] m = m
count_buckets (b ∷ bs) m =
    count_buckets bs (insert b.key (add64 (count_of (lookup b.key m)) b.doc_count) m)

unfoldable pub count_all : List Aggregation → Map ℕ → Map ℕ
count_all [] m = m
count_all (a ∷ as_) m = count_all as_ (count_buckets a.buckets m)

abbrev pub bucket_of : String × ℕ → Bucket
bucket_of (k, n) = record { key = k; numeric_key = 0; doc_count = n }

-- The same for maps with float64 keys.
module _ (fl : Floats) where
  unfoldable pub count_numeric : ℕ → ℕ → List (ℕ × ℕ) → List (ℕ × ℕ)
  count_numeric k n [] = (k, n) ∷ []
  count_numeric k n ((j, c) ∷ m) =
      let rest = count_numeric k n m in if fl.same j k then (j, add64 c n) ∷ m else (j, c) ∷ rest

  unfoldable pub numeric_buckets : List Bucket → List (ℕ × ℕ) → List (ℕ × ℕ)
  numeric_buckets [] m = m
  numeric_buckets (b ∷ bs) m = numeric_buckets bs (count_numeric b.numeric_key b.doc_count m)

  unfoldable pub numeric_all : List Aggregation → List (ℕ × ℕ) → List (ℕ × ℕ)
  numeric_all [] m = m
  numeric_all (a ∷ as_) m = numeric_all as_ (numeric_buckets a.buckets m)

abbrev pub numeric_bucket : ℕ × ℕ → Bucket
numeric_bucket (k, n) = record { key = ""; numeric_key = k; doc_count = n }

-- The first result bucket with the key of a bucket takes its count.
unfoldable pub add_bucket : Bucket → List Bucket → List Bucket
add_bucket b [] = []
add_bucket b (r ∷ rs) =
    let rest = add_bucket b rs in
    if str_eq r.key b.key
    then record r { doc_count = add64 r.doc_count b.doc_count } ∷ rs
    else r ∷ rest

unfoldable pub add_buckets : List Bucket → List Bucket → List Bucket
add_buckets [] rs = rs
add_buckets (b ∷ bs) rs = add_buckets bs (add_bucket b rs)

unfoldable pub add_shards : List Aggregation → List Bucket → List Bucket
add_shards [] rs = rs
add_shards (a ∷ as_) rs = add_shards as_ (add_buckets a.buckets rs)

-- The buckets of the first shard without what the result has no place for.
abbrev pub template : Bucket → Bucket
template b = record { key = b.key; numeric_key = 0; doc_count = b.doc_count }

-- `mergeRangeAggregation` and `mergeFiltersAggregation`, which differ in the type.
unfoldable pub merge_template : String → Aggregation → List Aggregation → Aggregation
merge_template t a as_ = record (new_aggregation t) {
  buckets = add_shards as_ (map template a.buckets);
}

-- `sort.Slice` of buckets by count and by numeric key.
module _ (fl : Floats) (by_count by_key : List Bucket → List Bucket) where
  unfoldable pub merge_buckets : Aggregation → List Aggregation → Aggregation
  merge_buckets a as_ =
      if str_eq a.kind "range"
      then merge_template "range" a as_
      else if str_eq a.kind "filters"
      then merge_template "filters" a as_
      else if str_eq a.kind "histogram"
      then record (new_aggregation a.kind) {
        buckets = by_key (map numeric_bucket (numeric_all fl (a ∷ as_) []));
      }
      else record (new_aggregation a.kind) {
        buckets = by_count (map bucket_of (count_all (a ∷ as_) []));
      }

  -- The switch on the type that the first shard gives; `none` for a type that is not known.
  unfoldable pub merge_aggregation : Aggregation → List Aggregation → Option Aggregation
  merge_aggregation a as_ =
      let k = a.kind in
      if str_eq k "terms"
        || str_eq k "histogram"
        || str_eq k "date_histogram"
        || str_eq k "range"
        || str_eq k "filters"
      then some (merge_buckets a as_)
      else if str_eq k "stats"
      then some (merge_stats fl false a as_)
      else if str_eq k "extended_stats"
      then some (merge_stats fl true a as_)
      else if str_eq k "percentiles"
      then some (merge_percentiles fl (a ∷ as_))
      else if str_eq k "cardinality"
      then some (merge_cardinality fl (a ∷ as_))
      else if str_eq k "avg"
          || str_eq k "min"
          || str_eq k "max"
          || str_eq k "sum"
          || str_eq k "value_count"
      then some (merge_metric fl a as_)
      else none

  -- `aggsByName[name] = append(aggsByName[name], agg)`
  abbrev pub appended : Option (List Aggregation) → Aggregation → List Aggregation
  appended none a = a ∷ []
  appended (some as_) a = as_ ++ a ∷ []

  unfoldable pub by_name : Map Aggregation → Map (List Aggregation) → Map (List Aggregation)
  by_name [] m = m
  by_name ((n, a) ∷ rest) m = by_name rest (insert n (appended (lookup n m) a) m)

  unfoldable pub all_by_name : List Response → Map (List Aggregation) → Map (List Aggregation)
  all_by_name [] m = m
  all_by_name (r ∷ rs) m = all_by_name rs (by_name r.aggregations m)

  abbrev pub merged_entry : String → List Aggregation → Map Aggregation → Map Aggregation
  merged_entry n [] rest = rest
  merged_entry n (a ∷ as_) rest = elim (merge_aggregation a as_) [
    | some r ↦ (n, r) ∷ rest
    | none ↦ rest
  ]

  unfoldable pub merge_all : Map (List Aggregation) → Map Aggregation
  merge_all [] = []
  merge_all ((n, as_) ∷ m) = merged_entry n as_ (merge_all m)

  -- `mergeAggregations`; a nil map reads as an empty one.
  unfoldable pub merge_aggregations : List Response → Map Aggregation
  merge_aggregations rs = merge_all (all_by_name rs [])
