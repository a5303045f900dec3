-- ===== src/Allocation/Spread.antt =====
-- How pkg/master/allocation/allocator.go spreads the primaries of an index.
use quidditch.Common.{ℕ, suc, ◌<◌, ◌≡◌, String, true, List, [], ◌∷◌, Map, All, ◌⊎◌, if◌then◌else◌}
use quidditch.Raft.State.{NodeMeta, ShardRouting}
use quidditch.Allocation.Allocator.{AllocationDecision, IsSort, shard_count}

-- How many decisions are for primaries.
abbrev pub primary_count : List AllocationDecision → ℕ
primary_count [] = 0
primary_count (d ∷ ds) = if d.is_primary then suc (primary_count ds) else primary_count ds

module _ (sort : (NodeMeta → ℕ) → List NodeMeta → List NodeMeta) (law : IsSort sort)
    (shards : Map ShardRouting) (id_of_least : String) (c : ℕ) where
  -- The node of that id, or one with more than `c` shards.
  abbrev pub IsLeastOrMore : NodeMeta → Type 0
  IsLeastOrMore n = (n.node_id ≡ id_of_least) ⊎ (c < shard_count shards n)

  abbrev pub HasMore : NodeMeta → Type 0
  HasMore n = c < shard_count shards n

  -- A decision for a primary is for the node of that id.
  abbrev pub PrimaryOn : AllocationDecision → Type 0
  PrimaryOn d = d.is_primary ≡ true → d.node_id ≡ id_of_least

  -- Replicas are appended, and change nothing of the primaries.
  Leading : ℕ → List AllocationDecision → Type 0
  Leading k ds = All PrimaryOn ds × (primary_count ds ≡ k)
