-- ===== src/Cache/PlanTests.antt =====
-- The plan cache of pkg/coordination/cache/query_cache.go at concrete inputs.
use quidditch.Common.{◌≡◌, refl, String, Option, none, some, [], ◌∷◌, arith}
use quidditch.Json.{str, obj, single}
use quidditch.Query.Ast.{SearchRequest, Query, match}
use quidditch.Cache.Lru.{LruCache, new_lru_cache}
use quidditch.Cache.Limits.{IsValid}
use quidditch.Cache.Calls.{new_lru_cache-IsValid}
use quidditch.Cache.Plans.{
  LogicalEntry, QueryCache, Keys, normalize_query, get_logical_plan, put_logical_plan,
}
use quidditch.Cache.Collisions.{altered, get_logical_plan-put}

-- Plans are texts, and the digest of a request is its index.
abbrev keys : Keys String
keys = record {
  shown = λ q. "&{}";
  digest = λ d. some d.index;
  moment = λ i now. i;
  plan_key = λ i p. p;
}

abbrev any_word : Option Query
any_word = some (match "title" "blue moon" "or" 0 "")

abbrev every_word : Option Query
every_word = some (match "title" "blue moon" "and" 0 "")

-- The average of the prices, of documents with any of the words.
abbrev request : SearchRequest
request = record {
  parsed_query = any_word;
  size = 10;
  from = 0;
  sort = [];
  source = none;
  aggregations = none;
  aggs = some (single "price" (obj (single "avg" (obj (single "field" (str "price"))))));
}

abbrev lru : LruCache (LogicalEntry String)
lru = new_lru_cache 1000 100000 100

abbrev plans : QueryCache String String
plans = record { logical = some lru; physical = none }

lru-IsValid : IsValid lru
unfolding new_lru_cache
lru-IsValid = unfold new_lru_cache in new_lru_cache-IsValid 1000 100000 100 (omega arith)

-- The request for documents with every word, without aggregations, gets the same plan.
get_logical_plan-put_example :
    (qc : QueryCache String String) × (put_logical_plan keys
        (λ s. 5)
        3
        "books"
        request
        (0 ∷ [])
        "plan"
        plans
      ≡ some qc)
    × ((get_logical_plan keys 50 "books" (altered request every_word none none) (0 ∷ []) qc).1
        ≡ some "plan")
unfolding new_lru_cache normalize_query
get_logical_plan-put_example =
    get_logical_plan-put keys (λ s. 5) plans lru 3 50 "books" request (0 ∷ []) "plan" "books"
      every_word none none refl lru-IsValid (omega arith) (λ h. refl) (omega arith) refl refl
