-- ===== src/Raft/Sharing.antt =====
-- `Snapshot` and `GetState` of pkg/master/raft/fsm.go: the maps are copied, the nodes are shared.
use quidditch.Common.{
  ℕ, ◌≡◌, refl, sym, ◌∙◌, get_elem?, get_elem?-append_left, ℕ_discrete, String, Bool, true, false,
  some, List, [], ◌∷◌, arith, Map, lookup, insert, lookup-insert, ite, Option-cases, inl, inr,
}
use quidditch.Raft.State.{NodeMeta, Ref, ClusterState, Fsm, Heartbeat, Codec}
use quidditch.Raft.Fsm.{
  Command, create_index_cmd, update_index_cmd, register_node_cmd, update_node_cmd, heartbeat_cmd,
  create_index, update_index, delete_index, put_node, register_node, unregister_node, update_node,
  heartbeat, allocate_shard, deallocate_shard, update_shard, execute, touch_node, apply, apply_all,
  classify, next_version,
}
use quidditch.Raft.View.{node_in}
use quidditch.Raft.Invariant.{IsValid, seen, get_elem?-touch_node}

-- `for k, v := range m { copy[k] = v }`
unfoldable pub copy_map {ℓ} : {V : Type ℓ} → Map V → Map V
copy_map [] = []
copy_map ((k, v) ∷ m) = insert k v (copy_map m)

-- The state that `Snapshot` wraps and that `GetState` returns.
unfoldable pub get_state : Fsm → ClusterState
get_state f = record (f.state) {
  indices = copy_map f.state.indices;
  nodes = copy_map f.state.nodes;
  shard_routing = copy_map f.state.shard_routing;
}

pub lookup-copy_map {ℓ} : {V : Type ℓ} (k : String) (m : Map V) → lookup k (copy_map m) ≡ lookup k m
unfolding copy_map lookup
lookup-copy_map k [] = refl
lookup-copy_map k ((j, v) ∷ m) =
    ground (arith, lookup-insert j k v (copy_map m), lookup-copy_map k m)

abbrev pub is_heartbeat : Command → Bool
is_heartbeat (heartbeat_cmd h) = true
is_heartbeat _ = false

-- New objects come behind the old ones.
put_node-kept :
    (f : Fsm) (n : NodeMeta) (r : Ref) {m : NodeMeta}
    → get_elem? f.heap r ≡ some m
    → get_elem? (put_node f n).heap r ≡ some m
unfolding put_node
put_node-kept f n r at = get_elem?-append_left f.heap (n ∷ []) r at

update_node-kept :
    (f : Fsm) (n : NodeMeta) (r : Ref) {m : NodeMeta}
    → get_elem? f.heap r ≡ some m
    → get_elem? (update_node f n).0.heap r ≡ some m
unfolding update_node
update_node-kept f n r at = elim (Option-cases (lookup n.node_id f.state.nodes)) [
  | inl new ↦ rw (new, update_node) at
  | inr (p, old) ↦ rw (old, update_node) (put_node-kept f n r at)
]

-- A command but a heartbeat leaves every object as it was.
execute-kept :
    (f : Fsm) (c : Command) (r : Ref) {m : NodeMeta}
    → is_heartbeat c ≡ false
    → get_elem? f.heap r ≡ some m
    → get_elem? (execute f c).0.heap r ≡ some m
unfolding execute register_node unregister_node create_index update_index delete_index
    allocate_shard deallocate_shard update_shard
execute-kept f (create_index_cmd i) r b at = ground arith
execute-kept f (update_index_cmd i) r b at = ground arith
execute-kept f (register_node_cmd n) r b at = put_node-kept f n r at
execute-kept f (update_node_cmd n) r b at = update_node-kept f n r at
execute-kept f (heartbeat_cmd h) r b at = cc
execute-kept f _ r b at = at

-- There is an object at a pointer, and no command removes it.
abbrev IsLive : List NodeMeta → Ref → Type 0
IsLive heap r = (m : NodeMeta) × (get_elem? heap r ≡ some m)

touch_node-IsLive :
    (heap : List NodeMeta) (p r : Ref) (t : ℕ) → IsLive heap r → IsLive (touch_node p t heap) r
touch_node-IsLive heap p r t (m, at) = elim (ℕ_discrete p r) [
  | yes e ↦ (record m { last_seen = t }, ground (arith, get_elem?-touch_node heap p t r))
  | no other ↦ (m, ground (arith, get_elem?-touch_node heap p t r))
]

heartbeat-IsLive :
    (f : Fsm) (h : Heartbeat) (r : Ref) → IsLive f.heap r → IsLive (heartbeat f h).0.heap r
unfolding heartbeat
heartbeat-IsLive f h r live = elim (Option-cases (lookup h.node_id f.state.nodes)) [
  | inl gone ↦ rw (gone, heartbeat) live
  | inr (p, at) ↦ rw (at, heartbeat) (touch_node-IsLive f.heap p r h.last_seen live)
]

execute-IsLive : (f : Fsm) (c : Command) (r : Ref) → IsLive f.heap r → IsLive (execute f c).0.heap r
unfolding execute
execute-IsLive f (heartbeat_cmd h) r live = heartbeat-IsLive f h r live
execute-IsLive f c r (m, at) = (m, execute-kept f c r refl at)

apply-IsLive :
    (codec : Codec) (log : codec.Raw) (f : Fsm) (r : Ref)
    → IsLive f.heap r
    → IsLive (apply codec f log).0.heap r
unfolding apply
apply-IsLive codec log f r live = elim (Option-cases (codec.decode_command log)) [
  | inl bad ↦ rw (bad, apply) live
  | inr (command, good) ↦
      rw (good, apply)
        (execute-IsLive (next_version codec f) (classify codec command.0 command.1) r live)
]

apply_all-IsLive :
    (codec : Codec) (logs : List codec.Raw) (f : Fsm) (r : Ref)
    → IsLive f.heap r
    → IsLive (apply_all codec f logs).0.heap r
unfolding apply_all
apply_all-IsLive codec [] f r live = live
apply_all-IsLive codec (log ∷ logs) f r live =
    apply_all-IsLive codec logs (apply codec f log).0 r (apply-IsLive codec log f r live)

-- Every pointer of a copy leads to an object, however much of the log is applied after the copy was made.
copy-IsLive :
    (codec : Codec) (logs : List codec.Raw) (f : Fsm) (k : String) (r : Ref)
    → IsValid f
    → lookup k (get_state f).nodes ≡ some r
    → IsLive (apply_all codec f logs).0.heap r
unfolding get_state
copy-IsLive codec logs f k r v at =
    let (m, here, named) = v.nodes_live k r (sym (lookup-copy_map k f.state.nodes) ∙ at) in
    apply_all-IsLive codec logs f r (m, here)

-- Every command but a heartbeat leaves the nodes of every copy that GetState gave at any time before it as they were,
-- registrations and updates of the same node included.
pub copy_stable :
    (codec : Codec) (f : Fsm) (logs : List codec.Raw) (c : Command) (k : String)
    → IsValid f
    → is_heartbeat c ≡ false
    → let g = (apply_all codec f logs).0 in
      node_in (execute g c).0.heap (get_state f) k ≡ node_in g.heap (get_state f) k
copy_stable codec f logs c k v other =
    let g = (apply_all codec f logs).0 in
    elim (Option-cases (lookup k (get_state f).nodes)) [
      | inl gone ↦ rw gone refl
      | inr (r, at) ↦
          let (m, here) = copy-IsLive codec logs f k r v at in
          rw at (execute-kept g c r other here ∙ sym here)
    ]

-- A heartbeat of a registered node is seen through every copy that GetState gave at any time before it and that still
-- points to the same object: the copy shows the new time. A copy that points to another object, since the node was
-- registered or updated after it, and the other nodes of a copy, are as they were.
pub heartbeat_through_copy :
    (codec : Codec) (f : Fsm) (logs : List codec.Raw) (h : Heartbeat) (r p : Ref) (k : String)
    → let g = (apply_all codec f logs).0 in
      lookup h.node_id g.state.nodes ≡ some r
      → lookup k (get_state f).nodes ≡ some p
      → node_in (heartbeat g h).0.heap (get_state f) k
        ≡ ite
            (ℕ_discrete r p)
            (seen h.last_seen (node_in g.heap (get_state f) k))
            (node_in g.heap (get_state f) k)
unfolding heartbeat
heartbeat_through_copy codec f logs h r p k at held =
    let g = (apply_all codec f logs).0 in
    rw (at, heartbeat) (rw held (get_elem?-touch_node g.heap r h.last_seen p))
