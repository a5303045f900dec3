-- ===== src/Raft/Snapshot.antt =====
-- `Snapshot`, `fsmSnapshot.Persist` and `Restore` of pkg/master/raft/fsm.go. JSON writes a pointer
-- as the object that it leads to; decoding makes a new object for each node.
use quidditch.Common.{
  ℕ, ◌+◌, String, Bool, true, false, Option, none, some, List, [], ◌∷◌, Map, map, if◌then◌else◌,
  get_elem?,
}
use quidditch.Raft.State.{
  IndexMeta, NodeMeta, ShardRouting, Ref, ClusterState, Fsm, Error, bad_snapshot,
}

-- What stands in the JSON text of a state.
pub record SnapshotData : Type 0 where
  pub version : ℕ
  pub cluster_uuid : String
  pub indices : Map IndexMeta
  pub nodes : Map NodeMeta
  pub shard_routing : Map ShardRouting

-- `json.Marshal` of a state, `json.Decoder.Decode` of a stream.
pub record SnapshotCodec : Type 1 where
  pub Raw : Type 0
  pub encode : SnapshotData → Option Raw
  pub decode : Raw → Option SnapshotData

-- A node's pointer, followed; the entry of a dangling pointer, which no machine has, is left out.
unfoldable pub follow : List NodeMeta → Map Ref → Map NodeMeta
follow heap [] = []
follow heap ((k, r) ∷ m) =
    let rest = follow heap m in elim (get_elem? heap r) [ none ↦ rest | some n ↦ (k, n) ∷ rest ]

unfoldable pub marshalled : List NodeMeta → ClusterState → SnapshotData
unfolding follow
marshalled heap s = record {
  version = s.version;
  cluster_uuid = s.cluster_uuid;
  indices = s.indices;
  nodes = follow heap s.nodes;
  shard_routing = s.shard_routing;
}

-- The pointers of the decoded nodes: positions from `i` on.
unfoldable pub number_from : ℕ → Map NodeMeta → Map Ref
number_from i [] = []
number_from i ((k, n) ∷ m) = (k, i) ∷ number_from (i + 1) m

abbrev pub objects : Map NodeMeta → List NodeMeta
objects = map (λ e. e.1)

unfoldable pub unmarshalled : SnapshotData → Fsm
unfolding number_from
unmarshalled d = record {
  state = record {
    version = d.version;
    cluster_uuid = d.cluster_uuid;
    indices = d.indices;
    nodes = number_from 0 d.nodes;
    shard_routing = d.shard_routing;
  };
  heap = objects d.nodes;
}

-- What a sink is told, and whether its `Write` and its `Close` fail.
pub data SinkCall (Raw : Type 0) : Type 0 where
  write : Raw → SinkCall Raw
  close cancel : SinkCall Raw

-- `Persist` gives the calls that the sink sees and whether it returns an error.
unfoldable pub persist :
    (c : SnapshotCodec) → List NodeMeta → ClusterState → Bool → Bool → List (SinkCall c.Raw) × Bool
persist c heap s write_fails close_fails = elim (c.encode (marshalled heap s)) [
  | none ↦ (cancel ∷ [], true)
  | some raw ↦
      if write_fails
      then (write raw ∷ cancel ∷ [], true)
      else if close_fails
      then (write raw ∷ close ∷ cancel ∷ [], true)
      else (write raw ∷ close ∷ [], false)
]

unfoldable pub restore : (c : SnapshotCodec) → Fsm → c.Raw → Fsm × Option Error
restore c f raw = elim (c.decode raw) [
  | none ↦ (f, some bad_snapshot)
  | some d ↦ (unmarshalled d, none)
]
