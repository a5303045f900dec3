-- ===== src/Executor/Metrics.antt =====
-- The merge of metric aggregations in pkg/coordination/executor/aggregator.go.
use quidditch.Common.{
  ℕ, suc, Bool, Option, none, some, List, [], ◌∷◌, length, str_eq, if◌then◌else◌, Map, lookup,
  insert, add64, lt64,
}
use quidditch.Executor.Answers.{Floats, Aggregation, new_aggregation}

-- Sums over the shards of a field.
unfoldable pub total64 : (Aggregation → ℕ) → List Aggregation → ℕ → ℕ
total64 get [] n = n
total64 get (a ∷ as_) n = total64 get as_ (add64 n (get a))

module _ (fl : Floats) where
  unfoldable pub total_float : (Aggregation → ℕ) → List Aggregation → ℕ → ℕ
  total_float get [] x = x
  total_float get (a ∷ as_) x = total_float get as_ (fl.add x (get a))

  -- The least and the greatest of a field.
  unfoldable pub least : (Aggregation → ℕ) → List Aggregation → ℕ → ℕ
  least get [] x = x
  least get (a ∷ as_) x = least get as_ (if fl.less (get a) x then get a else x)

  unfoldable pub greatest : (Aggregation → ℕ) → List Aggregation → ℕ → ℕ
  greatest get [] x = x
  greatest get (a ∷ as_) x = greatest get as_ (if fl.less x (get a) then get a else x)

  -- `if totalCount > 0 { result.Avg = ... }`
  abbrev pub with_average : Aggregation → Aggregation
  with_average r = if lt64 0 r.count then record r { avg = fl.div r.sum (fl.of_int r.count) } else r

  abbrev pub with_deviation : Aggregation → Aggregation
  with_deviation r =
      let d = fl.sqrt r.variance in
      let two_d = fl.mul (fl.of_int 2) d in
      if fl.less 0 r.variance
      then record r {
        std_deviation = d;
        bounds_upper = fl.add r.avg two_d;
        bounds_lower = fl.sub r.avg two_d;
      }
      else r

  abbrev pub with_variance : Aggregation → Aggregation
  with_variance r =
      if lt64 0 r.count
      then with_deviation (record r {
        variance = fl.sub (fl.div r.sum_of_squares (fl.of_int r.count)) (fl.mul r.avg r.avg);
      })
      else r

  unfoldable pub merge_stats : Bool → Aggregation → List Aggregation → Aggregation
  merge_stats extended a as_ =
      let all = a ∷ as_ in
      let base = with_average (record (new_aggregation a.kind) {
        min = least (λ x. x.min) all a.min;
        max = greatest (λ x. x.max) all a.max;
        count = total64 (λ x. x.count) all 0;
        sum = total_float (λ x. x.sum) all 0;
      }) in
      if extended
      then with_variance
          (record base { sum_of_squares = total_float (λ x. x.sum_of_squares) all 0 })
      else base

  abbrev pub next_value : Option (ℕ × ℕ) → ℕ → ℕ × ℕ
  next_value none v = (fl.add 0 v, 1)
  next_value (some (s, n)) v = (fl.add s v, suc n)

  -- The sum and the number of the values of each percentile.
  unfoldable pub add_values : Map ℕ → Map (ℕ × ℕ) → Map (ℕ × ℕ)
  add_values [] m = m
  add_values ((p, v) ∷ vs) m = add_values vs (insert p (next_value (lookup p m) v) m)

  unfoldable pub all_values : List Aggregation → Map (ℕ × ℕ) → Map (ℕ × ℕ)
  all_values [] m = m
  all_values (a ∷ as_) m = all_values as_ (add_values a.values m)

  unfoldable pub averages : Map (ℕ × ℕ) → Map ℕ
  averages [] = []
  averages ((p, (s, n)) ∷ m) = (p, fl.div s (fl.of_int n)) ∷ averages m

  unfoldable pub merge_percentiles : List Aggregation → Aggregation
  merge_percentiles all = record (new_aggregation "percentiles") {
    values = averages (all_values all []);
  }

  unfoldable pub merge_cardinality : List Aggregation → Aggregation
  merge_cardinality all = record (new_aggregation "cardinality") {
    value = total64 (λ x. x.value) all 0;
  }

  -- `mergeSimpleMetricAggregation`
  unfoldable pub merge_metric : Aggregation → List Aggregation → Aggregation
  merge_metric a as_ =
      let all = a ∷ as_ in
      let r = new_aggregation a.kind in
      if str_eq a.kind "avg"
      then record r { avg = fl.div (total_float (λ x. x.avg) all 0) (fl.of_int (length all)) }
      else if str_eq a.kind "min"
      then record r { min = least (λ x. x.min) all a.min }
      else if str_eq a.kind "max"
      then record r { max = greatest (λ x. x.max) all a.max }
      else if str_eq a.kind "sum"
      then record r { sum = total_float (λ x. x.sum) all 0 }
      else if str_eq a.kind "value_count"
      then record r { count = total64 (λ x. x.count) all 0 }
      else r
