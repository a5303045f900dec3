-- ===== src/Raft/State.antt =====
-- The data of pkg/master/raft/fsm.go. `Nodes` maps an id to a pointer: heartbeats write through it,
-- so a node is an object of `heap` and the map holds its position there. Index and shard records
-- are replaced and never written through their pointers, so the maps hold them by value.
use quidditch.Common.{ℕ, String, Bool, Option, List, [], Map, format_int32}
use Prim.Native.String.{◌++◌}

pub record IndexMeta : Type 0 where
  pub name : String
  pub uuid : String
  pub version : ℕ  -- int64
  pub num_shards : ℕ  -- int32
  pub num_replicas : ℕ  -- int32
  pub settings : Map String
  pub state : String
  pub created_at : ℕ  -- int64

pub record NodeMeta : Type 0 where
  pub node_id : String
  pub node_type : String
  pub bind_addr : String
  pub grpc_port : ℕ  -- int32
  pub storage_tier : String
  pub max_shards : ℕ  -- int32
  pub status : String
  pub joined_at : ℕ  -- int64
  pub last_seen : ℕ  -- int64

pub record ShardRouting : Type 0 where
  pub index_name : String
  pub shard_id : ℕ  -- int32
  pub is_primary : Bool
  pub node_id : String
  pub state : String
  pub version : ℕ  -- int64

-- A pointer to a node: its position in the heap.
abbrev pub Ref : Type 0
Ref = ℕ

pub record ClusterState : Type 0 where
  pub version : ℕ  -- int64
  pub cluster_uuid : String
  pub indices : Map IndexMeta
  pub nodes : Map Ref
  pub shard_routing : Map ShardRouting

pub record Fsm : Type 0 where
  pub state : ClusterState
  pub heap : List NodeMeta

-- The payload of a heartbeat.
pub record Heartbeat : Type 0 where
  pub node_id : String
  pub last_seen : ℕ  -- int64

-- The request of a shard's deallocation.
pub record ShardRequest : Type 0 where
  pub index_name : String
  pub shard_id : ℕ  -- int32

-- What `Apply` returns: one constructor for each `fmt.Errorf`.
pub data Error : Type 0 where
  bad_command bad_payload bad_snapshot : Error
  index_exists no_index no_node unknown_command : String → Error

-- The JSON decoders that `Apply` and its methods call. `none` is a decoding error.
pub record Codec : Type 1 where
  pub Raw : Type 0
  pub decode_command : Raw → Option (String × Raw)
  pub decode_index : Raw → Option IndexMeta
  pub decode_index_name : Raw → Option String
  pub decode_node : Raw → Option NodeMeta
  pub decode_node_id : Raw → Option String
  pub decode_heartbeat : Raw → Option Heartbeat
  pub decode_shard : Raw → Option ShardRouting
  pub decode_shard_request : Raw → Option ShardRequest

-- `fmt.Sprintf("%s:%d", name, id)`
unfoldable pub shard_key : String → ℕ → String
unfolding format_int32
shard_key name id = name ++ (":" ++ format_int32 id)

unfoldable pub new_fsm : Fsm
new_fsm = record {
  state = record { version = 0; cluster_uuid = ""; indices = []; nodes = []; shard_routing = [] };
  heap = [];
}
