-- ===== src/Executor/Tests.antt =====
-- Searches of pkg/coordination/executor at concrete inputs.
use mathlib.Core.List.Perm
use quidditch.Common.{
  ℕ, ◌+◌, ◌-◌, ◌*◌, ◌%◌, ◌^◌, ◌≡◌, refl, String, none, some, List, [], ◌∷◌, true, ltb, ◌==◌,
}
use quidditch.Common.Results.{ok}
use quidditch.Executor.Answers.{Floats, Bucket, Aggregation, new_aggregation}
use quidditch.Executor.Merge.{merge_buckets}
use quidditch.Executor.Buckets.{docs_under, docs_of_shards, merge_buckets-docs}
use quidditch.Executor.Search.{Client, Routing, execute_count, execute_search}
use quidditch.Executor.Failures.{docs_of_routing, execute_search-panics}

-- Natural numbers in the place of float64.
abbrev floats : Floats
floats = record {
  add = ◌+◌;
  sub = ◌-◌;
  mul = ◌*◌;
  div = λ a b. a;
  less = ltb;
  same = ◌==◌;
  sqrt = λ a. a;
  of_int = λ n. n;
}

abbrev terms_of : List Bucket → Aggregation
terms_of bs = record (new_aggregation "terms") { buckets = bs }

abbrev bucket : String → ℕ → Bucket
bucket k n = record { key = k; numeric_key = 0; doc_count = n }

abbrev first_shard : Aggregation
first_shard = terms_of (bucket "red" 2 ∷ bucket "blue" 1 ∷ [])

abbrev second_shard : Aggregation
second_shard = terms_of (bucket "blue" 5 ∷ [])

merge_buckets-docs_example :
    docs_under "blue"
      (merge_buckets floats (λ bs. bs) (λ bs. bs) first_shard (second_shard ∷ [])).buckets
    ≡ docs_of_shards "blue" (first_shard ∷ second_shard ∷ []) % 2 ^ 64
merge_buckets-docs_example =
    merge_buckets-docs floats (λ bs. bs) (λ bs. bs) (λ bs. Perm.refl bs) "blue" first_shard
      (second_shard ∷ []) refl

blue_count : docs_of_shards "blue" (first_shard ∷ second_shard ∷ []) ≡ 6
blue_count = refl

abbrev client : Client
client = record {
  is_connected = true;
  connects = true;
  search = λ sid. some (record { found = none; aggregations = [] });
  count = λ sid. some (sid + 10);
}

abbrev routing : Routing
routing = (0, some (record { is_started = true; node_id = "a" })) ∷ (1, none) ∷ []

execute_search-panics_example :
    (execute_search floats
        (λ hs. hs)
        (λ bs. bs)
        (λ bs. bs)
        (("a", client) ∷ [])
        (λ rs. rs)
        (some routing)
        0
        10
      ≡ none)
    × (execute_count (("a", client) ∷ []) (λ ns. ns) (some routing)
        ≡ ok (docs_of_routing (("a", client) ∷ []) routing % 2 ^ 64))
execute_search-panics_example =
    execute_search-panics floats (λ hs. hs) (λ bs. bs) (λ bs. bs) (("a", client) ∷ []) (λ rs. rs)
      (λ ns. ns) (λ ns. Perm.refl ns) routing 0 10 refl
