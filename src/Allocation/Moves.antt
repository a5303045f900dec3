-- ===== src/Allocation/Moves.antt =====
-- The decisions of `RebalanceShards`, pkg/master/allocation/allocator.go.
use quidditch.Common.{
  ℕ, ◌+◌, ◌≡◌, ◌≢◌, ◌⊎◌, false, str_dec, sym, ap, ◌∙◌, String, Option, none, some, some-injective,
  List, [], ◌∷◌, Map, lookup, All, ltb, inl, inr, length, arith, Bool-cases,
}
use mathlib.Core.Path.{subst}
use quidditch.Raft.State.{NodeMeta, ShardRouting}
use quidditch.Allocation.Allocator.{healthy_data_nodes}
use quidditch.Allocation.Placement.{All-map}
use quidditch.Allocation.Rebalance.{
  RebalanceDecision, Visits, zero_counts, count_one, count_shards, total, average_of, counts_of,
  rebalance_shards,
}
use quidditch.Allocation.Balance.{HasDistinctKeys, insert-HasDistinctKeys, AreVisits, excess-total}
use quidditch.Allocation.Rounds.{HasNoReplica, IsMove, rounds-end}

zero_counts-HasDistinctKeys :
    (ns : List NodeMeta) (m : Map ℕ) → HasDistinctKeys m → HasDistinctKeys (zero_counts ns m)
unfolding zero_counts
zero_counts-HasDistinctKeys [] m d = d
zero_counts-HasDistinctKeys (n ∷ ns) m d =
    zero_counts-HasDistinctKeys ns _ (insert-HasDistinctKeys n.node_id 0 m d)

count_one-HasDistinctKeys :
    (id : String) (c : Option ℕ) (m : Map ℕ)
    → HasDistinctKeys m
    → HasDistinctKeys (count_one id c m)
count_one-HasDistinctKeys id none m d = d
count_one-HasDistinctKeys id (some c) m d = insert-HasDistinctKeys id (c + 1) m d

count_shards-HasDistinctKeys :
    (shards : Map ShardRouting) (m : Map ℕ)
    → HasDistinctKeys m
    → HasDistinctKeys (count_shards shards m)
unfolding count_shards
count_shards-HasDistinctKeys [] m d = d
count_shards-HasDistinctKeys ((k, s) ∷ shards) m d =
    count_shards-HasDistinctKeys shards _
      (count_one-HasDistinctKeys s.node_id (lookup s.node_id m) m d)

-- `RebalanceShards` ends on every state, in whatever order each range over a map visits it, and each of its decisions
-- moves a shard that the routing places on the node it leaves to another node, a primary only where the routing has no
-- replica on that node. As many rounds as there are counted shards, and one more, are enough.
pub rebalance_shards-ends :
    (orders : ℕ → Visits) (nodes : Map NodeMeta) (shards : Map ShardRouting)
    → ((n : ℕ) → AreVisits (orders n))
    → HasDistinctKeys shards
    → (ds : List RebalanceDecision) × (rebalance_shards orders nodes shards ≡ some ds)
      × All (IsMove shards) ds
unfolding rebalance_shards
rebalance_shards-ends orders nodes shards laws ks =
    elim (Bool-cases (ltb (length (healthy_data_nodes nodes)) 2)) [
      | inl few ↦ ([], ground arith, tt)
      | inr enough ↦
          let m = counts_of (healthy_data_nodes nodes) shards in
          let (ds, ends, moves) =
            rounds-end orders (total m + 1) shards (average_of m) m laws ks
              (count_shards-HasDistinctKeys shards _
                (zero_counts-HasDistinctKeys (healthy_data_nodes nodes) [] tt))
              (omega (arith, excess-total (average_of m) m)) in
          (ds, rw enough ends, moves)
    ]

-- No other replica of the routing is on the node.
abbrev pub IsOnlyReplica : String → ShardRouting → Map ShardRouting → Type 0
IsOnlyReplica n s shards =
    (k : String) (t : ShardRouting)
    → lookup k shards ≡ some t
    → t.node_id ≡ n
    → t.is_primary ≡ false
    → t ≡ s

-- Where the routing has one replica on a node, all decisions of a rebalancing that leave that node move this replica,
-- however many they are and in whatever order each range over a map visits it: `findShardToMove` reads the state, which
-- the earlier decisions have not changed.
pub rebalance_shards-same_shard :
    (orders : ℕ → Visits) (nodes : Map NodeMeta) (shards : Map ShardRouting)
    (ds : List RebalanceDecision) (k : String) (s : ShardRouting)
    → ((n : ℕ) → AreVisits (orders n))
    → HasDistinctKeys shards
    → lookup k shards ≡ some s
    → s.is_primary ≡ false
    → IsOnlyReplica s.node_id s shards
    → rebalance_shards orders nodes shards ≡ some ds
    → All
        (λ d.
          (d.from_node ≢ s.node_id)
          ⊎ ((d.index_name ≡ s.index_name) × (d.shard_id ≡ s.shard_id) × (d.is_primary ≡ false)))
        ds
rebalance_shards-same_shard orders nodes shards ds k s laws ks at replica only is =
    let (es, ends, moves) = rebalance_shards-ends orders nodes shards laws ks in
    All-map (IsMove shards) _ one ds
      (subst (All (IsMove shards)) (some-injective es ds (sym ends ∙ is)) moves)
  where
    moves_it :
        (d : RebalanceDecision)
        → IsMove shards d
        → d.from_node ≡ s.node_id
        → d.is_primary ≡ false
        → (d.index_name ≡ s.index_name) × (d.shard_id ≡ s.shard_id) × (d.is_primary ≡ false)
    moves_it d v on free =
        let (index, id, kind) = v.same in
        let same = only v.key v.shard v.at (v.there ∙ on) (sym kind ∙ free) in
        (index ∙ ap (λ t. t.index_name) same, id ∙ ap (λ t. t.shard_id) same, free)

    free_of :
        (d : RebalanceDecision)
        → d.from_node ≡ s.node_id
        → (d.is_primary ≡ false) ⊎ HasNoReplica d.from_node shards
        → d.is_primary ≡ false
    free_of d on (inl free) = free
    free_of d on (inr none_on) = elim (none_on k s at) [
      | inl off ↦ absurd (off (sym on))
      | inr primary ↦ absurd (ground arith)
    ]

    one :
        (d : RebalanceDecision)
        → IsMove shards d
        → (d.from_node ≢ s.node_id)
          ⊎ ((d.index_name ≡ s.index_name) × (d.shard_id ≡ s.shard_id) × (d.is_primary ≡ false))
    one d v = elim (str_dec d.from_node s.node_id) [
      | yes on ↦ inr (moves_it d v on (free_of d on v.last))
      | no off ↦ inl off
    ]
