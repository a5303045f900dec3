-- ===== src/Raft/Tests.antt =====
-- A short log over pkg/master/raft/fsm.go, and the theorems at it.
use quidditch.Common.{
  ℕ_discrete, ◌≡◌, refl, String, true, Option, none, some, List, [], ◌∷◌, lookup, insert, str_dec,
  sym, ite,
}
use quidditch.Raft.State.{
  IndexMeta, NodeMeta, ShardRouting, Fsm, Heartbeat, ShardRequest, Error, Codec, shard_key, new_fsm,
  index_exists, no_node, bad_command, bad_payload, unknown_command,
}
use quidditch.Raft.Fsm.{
  register_node_cmd, heartbeat_cmd, apply, apply_all, classify, execute, create_index,
  register_node, put_node, heartbeat, touch_node, allocate_shard,
}
use quidditch.Raft.View.{node_in, node_of, shard_of}
use quidditch.Raft.Invariant.{IsValid, seen, new_fsm-IsValid, apply_all-IsValid}
use quidditch.Raft.Sharing.{get_state, copy_map, heartbeat_through_copy, copy_stable}
use quidditch.Raft.Snapshot.{SnapshotData, SnapshotCodec, marshalled, restore}
use quidditch.Raft.Spec.{Agrees, obey, obey_all, view}
use quidditch.Raft.Refinement.{execute-Agrees, apply_all-obey_all}
use quidditch.Raft.Recovery.{restore-snapshot}

-- The messages, decoded by their constructors.
data Wire : Type 0 where
  entry : String → Wire → Wire
  index : IndexMeta → Wire
  name : String → Wire
  node : NodeMeta → Wire
  beat : Heartbeat → Wire
  shard : ShardRouting → Wire
  shard_request : ShardRequest → Wire

decode_entry : Wire → Option (String × Wire)
decode_entry (entry kind w) = some (kind, w)
decode_entry _ = none

decode_index : Wire → Option IndexMeta
decode_index (index i) = some i
decode_index _ = none

decode_name : Wire → Option String
decode_name (name n) = some n
decode_name _ = none

decode_node : Wire → Option NodeMeta
decode_node (node n) = some n
decode_node _ = none

decode_beat : Wire → Option Heartbeat
decode_beat (beat h) = some h
decode_beat _ = none

decode_shard : Wire → Option ShardRouting
decode_shard (shard s) = some s
decode_shard _ = none

decode_request : Wire → Option ShardRequest
decode_request (shard_request r) = some r
decode_request _ = none

abbrev wire : Codec
wire = record {
  Raw = Wire;
  decode_command = decode_entry;
  decode_index = decode_index;
  decode_index_name = decode_name;
  decode_node = decode_node;
  decode_node_id = decode_name;
  decode_heartbeat = decode_beat;
  decode_shard = decode_shard;
  decode_shard_request = decode_request;
}

abbrev plain : SnapshotCodec
plain = record { Raw = SnapshotData; encode = λ d. some d; decode = λ d. some d }

abbrev books : IndexMeta
books = record {
  name = "books";
  uuid = "u1";
  version = 1;
  num_shards = 2;
  num_replicas = 1;
  settings = [];
  state = "open";
  created_at = 5;
}

abbrev data_node : NodeMeta
data_node = record {
  node_id = "n1";
  node_type = "data";
  bind_addr = "10.0.0.1";
  grpc_port = 9000;
  storage_tier = "hot";
  max_shards = 100;
  status = "healthy";
  joined_at = 5;
  last_seen = 5;
}

abbrev first_shard : ShardRouting
first_shard = record {
  index_name = "books";
  shard_id = 0;
  is_primary = true;
  node_id = "n1";
  state = "started";
  version = 1;
}

abbrev logs : List Wire
logs =
    entry "create_index" (index books)
    ∷ entry "create_index" (index books)
    ∷ entry "register_node" (node data_node)
    ∷ entry "allocate_shard" (shard first_shard)
    ∷ entry "heartbeat" (beat (record { node_id = "n2"; last_seen = 7 }))
    ∷ entry "heartbeat" (name "n1")
    ∷ entry "reboot" (name "n1")
    ∷ name "n1"
    ∷ []

program : Unit {0}
unfolding apply_all apply classify execute create_index register_node put_node heartbeat touch_node
    allocate_shard shard_key new_fsm lookup copy_map get_state decode_entry decode_index decode_name
    decode_node decode_beat decode_shard decode_request
program = tt

abbrev responses : List (Option Error)
responses =
    none
    ∷ some (index_exists "books")
    ∷ none
    ∷ none
    ∷ some (no_node "n2")
    ∷ some bad_payload
    ∷ some (unknown_command "reboot")
    ∷ some bad_command
    ∷ []

abbrev cluster : Fsm
cluster = (apply_all wire new_fsm logs).0

cluster_runs :
    ((apply_all wire new_fsm logs).1 ≡ responses)
    × (cluster.state.version ≡ 7)
    × (node_of cluster "n1" ≡ some data_node)
    × (shard_of cluster "books:0" ≡ some first_shard)
unfolding program lookup insert str_dec
cluster_runs = (refl, refl, refl, refl)

cluster-IsValid : IsValid cluster
cluster-IsValid = apply_all-IsValid wire logs new_fsm new_fsm-IsValid

apply_all-IsValid_example : IsValid (apply_all wire new_fsm logs).0
apply_all-IsValid_example = apply_all-IsValid wire logs new_fsm new_fsm-IsValid

abbrev ping : Heartbeat
ping = record { node_id = "n1"; last_seen = 9 }

execute-Agrees_example :
    Agrees (execute cluster (heartbeat_cmd ping)) (obey (heartbeat_cmd ping) (view cluster))
execute-Agrees_example = execute-Agrees cluster (heartbeat_cmd ping) cluster-IsValid

apply_all-obey_all_example :
    (view (apply_all wire new_fsm logs).0 ≡ (obey_all wire (view new_fsm) logs).0)
    × ((apply_all wire new_fsm logs).1 ≡ (obey_all wire (view new_fsm) logs).1)
apply_all-obey_all_example = apply_all-obey_all wire logs new_fsm new_fsm-IsValid

-- More of the log, after a copy.
abbrev more_logs : List Wire
more_logs =
    entry "heartbeat" (beat (record { node_id = "n1"; last_seen = 8 }))
    ∷ entry "create_index" (index books)
    ∷ []

registered : lookup "n1" (apply_all wire cluster more_logs).0.state.nodes ≡ some 0
unfolding program lookup insert str_dec
registered = refl

held : lookup "n1" (get_state cluster).nodes ≡ some 0
unfolding program lookup insert str_dec
held = refl

heartbeat_through_copy_example :
    let g = (apply_all wire cluster more_logs).0 in
    node_in (heartbeat g ping).0.heap (get_state cluster) "n1"
    ≡ ite
        (ℕ_discrete 0 0)
        (seen 9 (node_in g.heap (get_state cluster) "n1"))
        (node_in g.heap (get_state cluster) "n1")
heartbeat_through_copy_example =
    heartbeat_through_copy wire cluster more_logs ping 0 0 "n1" registered held

copy_stable_example :
    let g = (apply_all wire cluster more_logs).0 in
    node_in (execute g (register_node_cmd data_node)).0.heap (get_state cluster) "n1"
    ≡ node_in g.heap (get_state cluster) "n1"
copy_stable_example =
    copy_stable wire cluster more_logs (register_node_cmd data_node) "n1" cluster-IsValid refl

restore-snapshot_example :
    let (h, e) = restore plain new_fsm (marshalled cluster.heap (get_state cluster)) in
    (e ≡ none)
    × IsValid h
    × (view h ≡ view cluster)
    × (view (apply_all wire h logs).0 ≡ view (apply_all wire cluster logs).0)
    × ((apply_all wire h logs).1 ≡ (apply_all wire cluster logs).1)
restore-snapshot_example =
    restore-snapshot plain wire cluster new_fsm (marshalled cluster.heap (get_state cluster)) logs
      (λ d r e. sym e) cluster-IsValid refl
