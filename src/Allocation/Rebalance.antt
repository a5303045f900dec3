-- ===== src/Allocation/Rebalance.antt =====
-- `Allocator.RebalanceShards` and its helpers, pkg/master/allocation/allocator.go. Counts are numbers
-- of entries of a map, far below 2 ^ 63.
use quidditch.Common.{
  ℕ, zero, suc, ◌+◌, ◌-◌, ◌/◌, String, Bool, true, false, Option, none, some, List, [], ◌∷◌, Map,
  lookup, insert, if◌then◌else◌, str_eq, ltb, length,
}
use quidditch.Raft.State.{NodeMeta, ShardRouting}
use quidditch.Allocation.Allocator.{healthy_data_nodes}

pub record RebalanceDecision : Type 0 where
  pub index_name : String
  pub shard_id : ℕ
  pub is_primary : Bool
  pub from_node : String
  pub to_node : String
  pub reason : String

-- The orders in which the loops of one round visit their maps: that of `findOverloadedNode`, that of
-- `findUnderloadedNode`, and the two of `findShardToMove`. The language leaves the order of a range over a map open, and
-- every range has its own.
pub record Visits : Type 0 where
  pub over : Map ℕ → Map ℕ
  pub under : Map ℕ → Map ℕ
  pub replicas : Map ShardRouting → Map ShardRouting
  pub all_shards : Map ShardRouting → Map ShardRouting

-- The loops that fill `nodeShardCounts`. Their result as a map does not depend on the order of the shards.
unfoldable pub zero_counts : List NodeMeta → Map ℕ → Map ℕ
zero_counts [] counts = counts
zero_counts (n ∷ ns) counts = zero_counts ns (insert n.node_id 0 counts)

abbrev pub count_one : String → Option ℕ → Map ℕ → Map ℕ
count_one id none counts = counts
count_one id (some c) counts = insert id (c + 1) counts

unfoldable pub count_shards : Map ShardRouting → Map ℕ → Map ℕ
count_shards [] counts = counts
count_shards ((k, s) ∷ m) counts =
    count_shards m (count_one s.node_id (lookup s.node_id counts) counts)

unfoldable pub total : Map ℕ → ℕ
total [] = 0
total ((k, c) ∷ m) = let rest = total m in c + rest

-- `findOverloadedNode` on the counts as it visits them, with the node found so far; "" is none.
unfoldable pub overloaded_from : String → ℕ → Map ℕ → String
overloaded_from best most [] = best
overloaded_from best most ((id, c) ∷ m) =
    let skip = overloaded_from best most m in
    let take = overloaded_from id c m in if ltb (most + 1) c then take else skip

abbrev pub find_overloaded_node : Map ℕ → ℕ → String
find_overloaded_node counts average = overloaded_from "" average counts

-- `findUnderloadedNode`, likewise: `count < minShards - 1` on integers is `count + 1 < minShards`.
unfoldable pub underloaded_from : String → ℕ → Map ℕ → String
underloaded_from best least [] = best
underloaded_from best least ((id, c) ∷ m) =
    let skip = underloaded_from best least m in
    let take = underloaded_from id c m in if ltb (c + 1) least then take else skip

abbrev pub find_underloaded_node : Map ℕ → ℕ → String
find_underloaded_node counts average = underloaded_from "" average counts

-- The loops of `findShardToMove`: a replica on the node, or else any shard on it.
unfoldable pub first_shard_on : Bool → String → Map ShardRouting → Option ShardRouting
first_shard_on replicas_only id [] = none
first_shard_on replicas_only id ((k, s) ∷ m) =
    let rest = first_shard_on replicas_only id m in
    if str_eq s.node_id id
    then (if replicas_only then (if s.is_primary then rest else some s) else some s)
    else rest

abbrev pub or_any : Option ShardRouting → Option ShardRouting → Option ShardRouting
or_any none s = s
or_any (some s) _ = some s

-- `findShardToMove`, on the state's shards as its two loops visit them.
unfoldable pub find_shard_to_move :
    Map ShardRouting → Map ShardRouting → String → Option ShardRouting
find_shard_to_move replicas all id =
    or_any (first_shard_on true id replicas) (first_shard_on false id all)

abbrev pub count_of : Option ℕ → ℕ
count_of none = 0
count_of (some c) = c

-- `nodeShardCounts[from]--` and `nodeShardCounts[to]++`.
unfoldable pub moved : String → String → Map ℕ → Map ℕ
moved from to counts =
    let less = insert from (count_of (lookup from counts) - 1) counts in
    insert to (count_of (lookup to less) + 1) less

abbrev pub move : String → String → ShardRouting → RebalanceDecision
move from to s = record {
  index_name = s.index_name;
  shard_id = s.shard_id;
  is_primary = s.is_primary;
  from_node = from;
  to_node = to;
  reason = "rebalance";
}

abbrev pub with_move :
    RebalanceDecision → Option (List RebalanceDecision) → Option (List RebalanceDecision)
with_move d none = none
with_move d (some ds) = some (d ∷ ds)

-- A round of the loop, on the nodes that it found: it stops, or moves a shard and goes on.
abbrev pub round :
    String
    → String
    → Option ShardRouting
    → Option (List RebalanceDecision)
    → Option (List RebalanceDecision)
round from to none rest = some []
round from to (some s) rest =
    if str_eq from ""
    then some []
    else if str_eq to ""
    then some []
    else with_move (move from to s) rest

-- The loop, on fuel; `none` means that the fuel ran out. Each round has its own orders.
unfoldable pub rebalance_rounds :
    (ℕ → Visits) → ℕ → Map ShardRouting → ℕ → Map ℕ → Option (List RebalanceDecision)
rebalance_rounds orders zero shards average counts = none
rebalance_rounds orders (suc fuel) shards average counts =
    let v = orders fuel in
    let from = find_overloaded_node (v.over counts) average in
    let to = find_underloaded_node (v.under counts) average in
    round from to (find_shard_to_move (v.replicas shards) (v.all_shards shards) from)
      (rebalance_rounds orders fuel shards average (moved from to counts))

abbrev pub average_of : Map ℕ → ℕ
average_of [] = 0
average_of (e ∷ m) = total (e ∷ m) / length (e ∷ m)

abbrev pub counts_of : List NodeMeta → Map ShardRouting → Map ℕ
counts_of nodes shards = count_shards shards (zero_counts nodes [])

-- The number of rounds is at most the total of the counts.
unfoldable pub rebalance_shards :
    (ℕ → Visits) → Map NodeMeta → Map ShardRouting → Option (List RebalanceDecision)
rebalance_shards orders nodes shards =
    let live = healthy_data_nodes nodes in
    let counts = counts_of live shards in
    if ltb (length live) 2
    then some []
    else rebalance_rounds orders (total counts + 1) shards (average_of counts) counts
