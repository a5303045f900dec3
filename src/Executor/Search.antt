-- ===== src/Executor/Search.antt =====
-- `aggregateSearchResults` of pkg/coordination/executor/aggregator.go, and the searches and counts of executor.go.
use quidditch.Common.{
  ℕ, String, Bool, true, false, Option, none, some, List, [], ◌∷◌, ◌++◌, length, str_eq, ◌||◌, ◌&&◌,
  not, if◌then◌else◌, ◌>>=◌, Map, lookup, insert, delete, add64, lt64,
}
use quidditch.Common.Results.{Result, ok, err}
use quidditch.Common.Slices.{slice}
use quidditch.Executor.Answers.{Floats, Bucket, Hit, Hits, Response, SearchResult}
use quidditch.Executor.Merge.{merge_aggregations}

-- What the loop over the responses collects of one of them.
abbrev total_of_hits : Option Hits → ℕ
total_of_hits none = 0
total_of_hits (some h) = elim h.total [ some n ↦ n | none ↦ 0 ]

abbrev pub hits_of : Option Hits → List Hit
hits_of none = []
hits_of (some h) = h.hits

unfoldable pub total_hits : List Response → ℕ → ℕ
total_hits [] n = n
total_hits (r ∷ rs) n = total_hits rs (add64 n (total_of_hits r.found))

unfoldable pub all_hits : List Response → List Hit
all_hits [] = []
all_hits (r ∷ rs) = hits_of r.found ++ all_hits rs

abbrev pub capped : ℕ → ℕ → ℕ
capped n x = if lt64 n x then n else x

module _ (fl : Floats) where
  abbrev greater_score : ℕ → Option Hits → ℕ
  greater_score x none = x
  greater_score x (some h) = if fl.less x h.max_score then h.max_score else x

  unfoldable pub max_score : List Response → ℕ → ℕ
  max_score [] x = x
  max_score (r ∷ rs) x = max_score rs (greater_score x r.found)

-- The order of `sort.Slice` by score, and those of buckets.
module _ (fl : Floats) (by_score : List Hit → List Hit)
    (by_count by_key : List Bucket → List Bucket) where
  -- `none` is the panic of a slice expression.
  unfoldable pub aggregate_search : List Response → ℕ → ℕ → Option SearchResult
  aggregate_search [] from size =
      some (record { total_hits = 0; max_score = 0; hits = []; aggregations = [] })
  aggregate_search (r ∷ rs) from size =
      let sorted = by_score (all_hits (r ∷ rs)) in
      let start = capped (length sorted) from in
      slice sorted start (capped (length sorted) (add64 start size)) >>= λ page. some (record {
        total_hits = total_hits (r ∷ rs) 0;
        max_score = max_score fl (r ∷ rs) 0;
        hits = page;
        aggregations = merge_aggregations fl by_count by_key (r ∷ rs);
      })

-- A client of a data node: whether it is connected, whether a connection succeeds, and what it answers for a shard,
-- `none` for an error.
pub record Client : Type 0 where
  pub is_connected : Bool
  pub connects : Bool
  pub search : ℕ → Option Response
  pub count : ℕ → Option ℕ

abbrev pub register_data_node : String → Client → Map Client → Map Client
register_data_node id c clients = insert id c clients

abbrev pub unregister_data_node : String → Map Client → Map Client
unregister_data_node id clients = delete id clients

abbrev pub has_data_node_client : String → Map Client → Bool
has_data_node_client id clients = elim (lookup id clients) [ some c ↦ true | none ↦ false ]

-- `ShardAllocation` of the routing.
pub record Allocation : Type 0 where
  pub is_started : Bool
  pub node_id : String

-- The routing of an index, in the order in which the loop visits it.
abbrev pub Routing : Type 0
Routing = List (ℕ × Option Allocation)

abbrev pub usable : Allocation → Bool
usable a = a.is_started && not (str_eq a.node_id "")

abbrev reached : Client → Bool
reached c = c.is_connected || c.connects

-- The body of the goroutine of a shard.
abbrev pub search_on : Option Client → ℕ → Option Response
search_on none sid = none
search_on (some c) sid = if reached c then c.search sid else none

abbrev pub count_on : Option Client → ℕ → Option ℕ
count_on none sid = none
count_on (some c) sid = if reached c then c.count sid else none

pub data SearchError : Type 0 where
  routing_failed all_failed no_shards : SearchError

-- The answers without the errors.
unfoldable pub answered {ℓ} : {A : Type ℓ} → List (Option A) → List A
answered [] = []
answered (none ∷ rs) = answered rs
answered (some r ∷ rs) = r ∷ answered rs

-- `qe.dataClients`
module _ (clients : Map Client) where
  -- The loop that starts the searches: of a shard that is not started, the state of the allocation is logged, which
  -- panics where there is no allocation.
  unfoldable pub searches : Routing → Option (List (Option Response))
  searches [] = some []
  searches ((sid, none) ∷ rs) = none
  searches ((sid, some a) ∷ rs) = searches rs >>= λ rest.
      some (if usable a then search_on (lookup a.node_id clients) sid ∷ rest else rest)

  unfoldable pub counts : Routing → List (Option ℕ)
  counts [] = []
  counts ((sid, none) ∷ rs) = counts rs
  counts ((sid, some a) ∷ rs) =
      let rest = counts rs in
      if usable a then count_on (lookup a.node_id clients) sid ∷ rest else rest

unfoldable pub sum64 : List ℕ → ℕ → ℕ
sum64 [] n = n
sum64 (x ∷ xs) n = sum64 xs (add64 n x)

-- The order in which the results arrive.
module _ (clients : Map Client) (arrive : List (Option ℕ) → List (Option ℕ)) where
  -- `ExecuteCount`
  unfoldable pub execute_count : Option Routing → Result SearchError ℕ
  execute_count none = err routing_failed
  execute_count (some routing) = ok (sum64 (answered (arrive (counts clients routing))) 0)

module _ (fl : Floats) (by_score : List Hit → List Hit)
    (by_count by_key : List Bucket → List Bucket) (clients : Map Client)
    (arrive : List (Option Response) → List (Option Response)) where
  -- What is made of the answers: an error if there are none.
  unfoldable pub conclude :
      List (Option Response) → ℕ → ℕ → Option (Result SearchError SearchResult)
  conclude results from size = elim (answered results) [
    | [] ↦ some (err (elim results [ [] ↦ no_shards | x ∷ xs ↦ all_failed ]))
    | r ∷ rs ↦ aggregate_search fl by_score by_count by_key (r ∷ rs) from size >>= λ s. some (ok s)
  ]

  -- `ExecuteSearch`; `none` is a panic.
  unfoldable pub execute_search : Option Routing → ℕ → ℕ → Option (Result SearchError SearchResult)
  execute_search none from size = some (err routing_failed)
  execute_search (some []) from size =
      some (ok (record { total_hits = 0; max_score = 0; hits = []; aggregations = [] }))
  execute_search (some (s ∷ routing)) from size =
      searches clients (s ∷ routing) >>= λ results. conclude (arrive results) from size
