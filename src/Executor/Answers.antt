-- ===== src/Executor/Answers.antt =====
-- What shards answer to a search, and the merged result, of pkg/coordination/executor/executor.go. The aggregations of
-- the protocol and those of the result have the same fields. A float64 is its bit pattern.
use quidditch.Common.{ℕ, String, Bool, Option, List, [], Map}
use quidditch.Json.{Fields}

-- Go's arithmetic on float64.
pub record Floats : Type 0 where
  pub add : ℕ → ℕ → ℕ
  pub sub : ℕ → ℕ → ℕ
  pub mul : ℕ → ℕ → ℕ
  pub div : ℕ → ℕ → ℕ
  pub less : ℕ → ℕ → Bool
  pub same : ℕ → ℕ → Bool
  pub sqrt : ℕ → ℕ
  pub of_int : ℕ → ℕ

-- `AggregationBucket`
pub record Bucket : Type 0 where
  pub key : String
  pub numeric_key : ℕ
  pub doc_count : ℕ

-- `AggregationResult`
pub record Aggregation : Type 0 where
  pub kind : String
  pub buckets : List Bucket
  pub count : ℕ
  pub min : ℕ
  pub max : ℕ
  pub avg : ℕ
  pub sum : ℕ
  pub sum_of_squares : ℕ
  pub variance : ℕ
  pub std_deviation : ℕ
  pub bounds_upper : ℕ
  pub bounds_lower : ℕ
  pub values : Map ℕ
  pub value : ℕ

-- A literal of the struct, of a type.
abbrev pub new_aggregation : String → Aggregation
new_aggregation t = record {
  kind = t;
  buckets = [];
  count = 0;
  min = 0;
  max = 0;
  avg = 0;
  sum = 0;
  sum_of_squares = 0;
  variance = 0;
  std_deviation = 0;
  bounds_upper = 0;
  bounds_lower = 0;
  values = [];
  value = 0;
}

-- `SearchHit`; a nil source is `none`.
pub record Hit : Type 0 where
  pub id : String
  pub score : ℕ
  pub source : Option Fields

-- The hits of a response, with the total, which may be missing.
pub record Hits : Type 0 where
  pub total : Option ℕ
  pub max_score : ℕ
  pub hits : List Hit

pub record Response : Type 0 where
  pub found : Option Hits
  pub aggregations : Map Aggregation

-- `SearchResult`, without the time that it took.
pub record SearchResult : Type 0 where
  pub total_hits : ℕ
  pub max_score : ℕ
  pub hits : List Hit
  pub aggregations : Map Aggregation
