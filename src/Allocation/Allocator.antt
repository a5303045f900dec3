-- ===== src/Allocation/Allocator.antt =====
-- `Allocator.AllocateShards` and its helpers, pkg/master/allocation/allocator.go. It reads the nodes
-- and the routing of a cluster state, here the values of these maps in the order of the range.
-- `sort.Slice` leaves the order of equal elements open: it is a parameter `sort`.
use Prim.Native.String.{◌++◌ as text_append}
use quidditch.Common.{
  ℕ, zero, suc, ◌^◌, ◌≤◌, ◌≡◌, String, Bool, true, false, Option, none, some, List, [], ◌∷◌, ◌++◌,
  Map, All, if◌then◌else◌, str_eq, ltb, ◌==◌, ◌&&◌, ◌⊎◌, inl, inr, format_int32,
}
use quidditch.Raft.State.{NodeMeta, ShardRouting}

pub record AllocationDecision : Type 0 where
  pub index_name : String
  pub shard_id : ℕ
  pub is_primary : Bool
  pub node_id : String
  pub reason : String

pub data AllocationError : Type 0 where
  no_data_nodes : AllocationError
  no_primary : ℕ → AllocationError

-- What `sort.Slice` documents, for a slice that is sorted by a number: it permutes, so it keeps what
-- holds of all elements, loses none, and the first element is a least one.
pub record IsSort (sort : (NodeMeta → ℕ) → List NodeMeta → List NodeMeta) : Type 1 where
  pub keeps :
      (P : NodeMeta → Type 0) (f : NodeMeta → ℕ) (xs : List NodeMeta) → All P xs → All P (sort f xs)
  pub loses_none :
      (P : NodeMeta → Type 0) (f : NodeMeta → ℕ) (xs : List NodeMeta) → All P (sort f xs) → All P xs
  pub first_least :
      (f : NodeMeta → ℕ) (x : NodeMeta) (xs : List NodeMeta)
      → (y : NodeMeta) × (ys : List NodeMeta) × (sort f (x ∷ xs) ≡ y ∷ ys)
        × All (λ z. f y ≤ f z) (x ∷ xs)

-- `getHealthyDataNodes`
unfoldable pub healthy_data_nodes : Map NodeMeta → List NodeMeta
healthy_data_nodes [] = []
healthy_data_nodes ((k, n) ∷ m) =
    let rest = healthy_data_nodes m in
    if str_eq n.node_type "data" && str_eq n.status "healthy" then n ∷ rest else rest

-- `shardCounts` at a node of the slice.
unfoldable pub shard_count : Map ShardRouting → NodeMeta → ℕ
shard_count [] n = 0
shard_count ((k, s) ∷ m) n =
    let c = shard_count m n in if str_eq s.node_id n.node_id then suc c else c

-- The candidates of `selectNodeForReplica`.
unfoldable pub other_nodes : String → List NodeMeta → List NodeMeta
other_nodes p [] = []
other_nodes p (n ∷ ns) =
    let rest = other_nodes p ns in if str_eq n.node_id p then rest else n ∷ rest

-- The loop that looks for the shard's primary among the decisions; "" if there is none.
unfoldable pub primary_node : ℕ → List AllocationDecision → String
primary_node id [] = ""
primary_node id (d ∷ ds) =
    let rest = primary_node id ds in if d.shard_id == id && d.is_primary then d.node_id else rest

abbrev pub first : List NodeMeta → Option NodeMeta
first [] = none
first (n ∷ _) = some n

-- How often a loop to an int32 runs.
abbrev pub times : ℕ → ℕ
times n = if ltb n (2 ^ 31) then n else 0

abbrev pub primary_decision : String → ℕ → NodeMeta → AllocationDecision
primary_decision index id n = record {
  index_name = index;
  shard_id = id;
  is_primary = true;
  node_id = n.node_id;
  reason = "primary_allocation";
}

unfoldable pub replica_decision : String → ℕ → ℕ → NodeMeta → AllocationDecision
unfolding format_int32
replica_decision index id replica n = record {
  index_name = index;
  shard_id = id;
  is_primary = false;
  node_id = n.node_id;
  reason = text_append (text_append "replica_" (format_int32 replica)) "_allocation";
}

module _ (sort : (NodeMeta → ℕ) → List NodeMeta → List NodeMeta) (shards : Map ShardRouting) where
  -- `selectNodeForShard`: the slice stays sorted for the next call.
  unfoldable pub select_node_for_shard : List NodeMeta → Option NodeMeta × List NodeMeta
  select_node_for_shard nodes =
      let sorted = sort (shard_count shards) nodes in (first sorted, sorted)

  abbrev pub least_of : List NodeMeta → Option NodeMeta
  least_of [] = none
  least_of (c ∷ cs) = first (sort (shard_count shards) (c ∷ cs))

  unfoldable pub select_node_for_replica : List NodeMeta → String → Option NodeMeta
  select_node_for_replica nodes primary = least_of (other_nodes primary nodes)

  abbrev pub prepend :
      AllocationDecision
      → AllocationError ⊎ (List AllocationDecision × List NodeMeta)
      → AllocationError ⊎ (List AllocationDecision × List NodeMeta)
  prepend d (inl e) = inl e
  prepend d (inr (ds, nodes)) = inr (d ∷ ds, nodes)

  abbrev pub with_primary :
      String
      → ℕ
      → Option NodeMeta
      → AllocationError ⊎ (List AllocationDecision × List NodeMeta)
      → AllocationError ⊎ (List AllocationDecision × List NodeMeta)
  with_primary index id none rest = inl (no_primary id)
  with_primary index id (some n) rest = prepend (primary_decision index id n) rest

  -- The loop over the primaries: `k` are left, from shard `id` on.
  unfoldable pub primaries :
      String → ℕ → ℕ → List NodeMeta → AllocationError ⊎ (List AllocationDecision × List NodeMeta)
  primaries index zero id nodes = inr ([], nodes)
  primaries index (suc k) id nodes =
      let (n, sorted) = select_node_for_shard nodes in
      with_primary index id n (primaries index k (suc id) sorted)

  abbrev pub with_replica :
      String → ℕ → ℕ → Option NodeMeta → List AllocationDecision → List AllocationDecision
  with_replica index id replica none ds = ds
  with_replica index id replica (some n) ds = ds ++ replica_decision index id replica n ∷ []

  -- The inner loop over the shards for one replica; a shard without a node for it is passed over.
  unfoldable pub replica_round :
      String → ℕ → ℕ → ℕ → List NodeMeta → List AllocationDecision → List AllocationDecision
  replica_round index replica zero id nodes ds = ds
  replica_round index replica (suc k) id nodes ds =
      replica_round index replica k (suc id) nodes
        (with_replica index id replica (select_node_for_replica nodes (primary_node id ds)) ds)

  -- The outer loop: `j` replicas are left, from number `replica` on.
  unfoldable pub replicas :
      String → ℕ → ℕ → ℕ → List NodeMeta → List AllocationDecision → List AllocationDecision
  replicas index k zero replica nodes ds = ds
  replicas index k (suc j) replica nodes ds =
      replicas index k j (suc replica) nodes (replica_round index replica k 0 nodes ds)

  abbrev pub and_replicas :
      String
      → ℕ
      → ℕ
      → AllocationError ⊎ (List AllocationDecision × List NodeMeta)
      → AllocationError ⊎ List AllocationDecision
  and_replicas index k j (inl e) = inl e
  and_replicas index k j (inr (ds, nodes)) = inr (replicas index k j 0 nodes ds)

  abbrev pub on_nodes : String → ℕ → ℕ → List NodeMeta → AllocationError ⊎ List AllocationDecision
  on_nodes index k j [] = inl no_data_nodes
  on_nodes index k j (n ∷ ns) = and_replicas index k j (primaries index k 0 (n ∷ ns))

  unfoldable pub allocate_shards :
      Map NodeMeta → String → ℕ → ℕ → AllocationError ⊎ List AllocationDecision
  allocate_shards nodes index num_shards num_replicas =
      on_nodes index (times num_shards) (times num_replicas) (healthy_data_nodes nodes)
