-- ===== src/Raft/Fsm.antt =====
-- `FSM.Apply` and the methods that it dispatches to, pkg/master/raft/fsm.go. A method returns the
-- new machine and its error, `none` for `nil`.
use quidditch.Common.{
  ℕ, String, Option, none, some, List, [], ◌∷◌, ◌++◌, Map, lookup, insert, delete, length,
  get_elem?, set, add64, if◌then◌else◌, str_eq,
}
use quidditch.Raft.State.{
  IndexMeta, NodeMeta, ShardRouting, Ref, Fsm, Heartbeat, ShardRequest, Error, Codec, bad_command,
  bad_payload, index_exists, no_index, no_node, unknown_command, shard_key,
}

abbrev pub Outcome : Type 0
Outcome = Fsm × Option Error

-- Writes of the maps, each leaving the rest of the machine alone.
abbrev pub with_indices : Fsm → Map IndexMeta → Fsm
with_indices f m = record f { state = record (f.state) { indices = m } }

abbrev pub with_shards : Fsm → Map ShardRouting → Fsm
with_shards f m = record f { state = record (f.state) { shard_routing = m } }

abbrev pub with_nodes : Fsm → Map Ref → Fsm
with_nodes f m = record f { state = record (f.state) { nodes = m } }

unfoldable pub create_index : Fsm → IndexMeta → Outcome
create_index f index = elim (lookup index.name f.state.indices) [
  | some _ ↦ (f, some (index_exists index.name))
  | none ↦ (with_indices f (insert index.name index f.state.indices), none)
]

unfoldable pub delete_index : Fsm → String → Outcome
delete_index f name = (with_indices f (delete name f.state.indices), none)

unfoldable pub update_index : Fsm → IndexMeta → Outcome
update_index f index = elim (lookup index.name f.state.indices) [
  | none ↦ (f, some (no_index index.name))
  | some _ ↦ (with_indices f (insert index.name index f.state.indices), none)
]

-- `f.state.Nodes[node.NodeID] = &node`: a new object, and the map's entry points to it.
unfoldable pub put_node : Fsm → NodeMeta → Fsm
put_node f node = record f {
  state = record (f.state) { nodes = insert node.node_id (length f.heap) f.state.nodes };
  heap = f.heap ++ node ∷ [];
}

unfoldable pub register_node : Fsm → NodeMeta → Outcome
register_node f node = (put_node f node, none)

unfoldable pub unregister_node : Fsm → String → Outcome
unregister_node f id = (with_nodes f (delete id f.state.nodes), none)

unfoldable pub update_node : Fsm → NodeMeta → Outcome
update_node f node = elim (lookup node.node_id f.state.nodes) [
  | none ↦ (f, some (no_node node.node_id))
  | some _ ↦ (put_node f node, none)
]

-- `node.LastSeen = t` through the pointer `r`.
unfoldable pub touch_node : Ref → ℕ → List NodeMeta → List NodeMeta
touch_node r t heap = elim (get_elem? heap r) [
  | none ↦ heap
  | some n ↦ set heap r (record n { last_seen = t })
]

unfoldable pub heartbeat : Fsm → Heartbeat → Outcome
heartbeat f h = elim (lookup h.node_id f.state.nodes) [
  | some r ↦ (record f { heap = touch_node r h.last_seen f.heap }, none)
  | none ↦ (f, some (no_node h.node_id))
]

-- `allocate_shard` and `update_shard` write the same entry.
unfoldable pub allocate_shard : Fsm → ShardRouting → Outcome
allocate_shard f shard = (
  with_shards f (insert (shard_key shard.index_name shard.shard_id) shard f.state.shard_routing),
  none,
)

unfoldable pub deallocate_shard : Fsm → ShardRequest → Outcome
deallocate_shard f req =
    (with_shards f (delete (shard_key req.index_name req.shard_id) f.state.shard_routing), none)

unfoldable pub update_shard : Fsm → ShardRouting → Outcome
update_shard f shard = (
  with_shards f (insert (shard_key shard.index_name shard.shard_id) shard f.state.shard_routing),
  none,
)

-- A decoded command, the `switch` of `Apply` taken.
pub data Command : Type 0 where
  create_index_cmd update_index_cmd : IndexMeta → Command
  delete_index_cmd unregister_node_cmd : String → Command
  register_node_cmd update_node_cmd : NodeMeta → Command
  heartbeat_cmd : Heartbeat → Command
  allocate_shard_cmd update_shard_cmd : ShardRouting → Command
  deallocate_shard_cmd : ShardRequest → Command
  -- the payload does not decode, or the type is unknown
  rejected_cmd : Error → Command

unfoldable pub execute : Fsm → Command → Outcome
execute f (create_index_cmd i) = create_index f i
execute f (update_index_cmd i) = update_index f i
execute f (delete_index_cmd n) = delete_index f n
execute f (unregister_node_cmd n) = unregister_node f n
execute f (register_node_cmd n) = register_node f n
execute f (update_node_cmd n) = update_node f n
execute f (heartbeat_cmd h) = heartbeat f h
execute f (allocate_shard_cmd s) = allocate_shard f s
execute f (update_shard_cmd s) = update_shard f s
execute f (deallocate_shard_cmd r) = deallocate_shard f r
execute f (rejected_cmd e) = (f, some e)

-- `if err := json.Unmarshal(payload, &x); err != nil { return … }`
abbrev decoded {ℓ} : {A : Type ℓ} → Option A → (A → Command) → Command
decoded none k = rejected_cmd bad_payload
decoded (some a) k = k a

module _ (c : Codec) where
  open c use {
    Raw, decode_command, decode_index, decode_index_name, decode_node, decode_node_id,
    decode_heartbeat, decode_shard, decode_shard_request,
  }

  -- The `switch cmd.Type` of `Apply`, with the decoding that each method begins with.
  unfoldable pub classify : String → Raw → Command
  classify kind payload =
      if str_eq kind "create_index"
      then decoded (decode_index payload) create_index_cmd
      else if str_eq kind "delete_index"
      then decoded (decode_index_name payload) delete_index_cmd
      else if str_eq kind "update_index"
      then decoded (decode_index payload) update_index_cmd
      else if str_eq kind "register_node"
      then decoded (decode_node payload) register_node_cmd
      else if str_eq kind "unregister_node"
      then decoded (decode_node_id payload) unregister_node_cmd
      else if str_eq kind "update_node"
      then decoded (decode_node payload) update_node_cmd
      else if str_eq kind "heartbeat"
      then decoded (decode_heartbeat payload) heartbeat_cmd
      else if str_eq kind "allocate_shard"
      then decoded (decode_shard payload) allocate_shard_cmd
      else if str_eq kind "deallocate_shard"
      then decoded (decode_shard_request payload) deallocate_shard_cmd
      else if str_eq kind "update_shard"
      then decoded (decode_shard payload) update_shard_cmd
      else rejected_cmd (unknown_command kind)

  -- `f.state.Version++`
  abbrev pub next_version : Fsm → Fsm
  next_version f = record f { state = record (f.state) { version = add64 f.state.version 1 } }

  unfoldable pub apply : Fsm → Raw → Outcome
  apply f log = elim (decode_command log) [
    | none ↦ (f, some bad_command)
    | some (kind, payload) ↦ execute (next_version f) (classify kind payload)
  ]

  -- The log, applied entry by entry; the responses are kept in order.
  unfoldable pub apply_all : Fsm → List Raw → Fsm × List (Option Error)
  apply_all f [] = (f, [])
  apply_all f (log ∷ logs) =
      let (f', e) = apply f log in let (f'', es) = apply_all f' logs in (f'', e ∷ es)
