-- ===== src/Raft/View.antt =====
-- What can be read of the machine of pkg/master/raft/fsm.go: nodes through their pointers, and the
-- other records by their keys.
use quidditch.Common.{String, Option, none, some, List, lookup, get_elem?}
use quidditch.Raft.State.{IndexMeta, NodeMeta, ShardRouting, Ref, ClusterState, Fsm}

abbrev pub deref : List NodeMeta → Option Ref → Option NodeMeta
deref heap none = none
deref heap (some r) = get_elem? heap r

-- `state.Nodes[id]`, read in a heap: the state may be a copy that was taken before.
abbrev pub node_in : List NodeMeta → ClusterState → String → Option NodeMeta
node_in heap s id = deref heap (lookup id s.nodes)

abbrev pub node_of : Fsm → String → Option NodeMeta
node_of f id = node_in f.heap f.state id

abbrev pub index_of : Fsm → String → Option IndexMeta
index_of f name = lookup name f.state.indices

abbrev pub shard_of : Fsm → String → Option ShardRouting
shard_of f key = lookup key f.state.shard_routing
