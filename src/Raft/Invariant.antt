-- ===== src/Raft/Invariant.antt =====
-- The invariant of pkg/master/raft/fsm.go: records and the keys they name, and the pointers to nodes.
use quidditch.Common.{
  ℕ, ◌≡◌, refl, String, Option, none, some, List, [], ◌∷◌, ◌++◌, arith, Map, lookup, insert,
  AllKeys, AllKeys-insert, AllKeys-delete, AllKeys-nil, length, get_elem?, get_elem?-append_left,
  get_elem?-append_new, get_elem?-set_self, get_elem?-set_ne, Option-cases, inl, inr, ℕ_discrete,
  ite,
}
use quidditch.Raft.State.{
  IndexMeta, NodeMeta, ShardRouting, Ref, Fsm, Heartbeat, Codec, shard_key, new_fsm,
}
use quidditch.Raft.Fsm.{
  with_indices, with_shards, create_index, delete_index, update_index, put_node, register_node,
  unregister_node, update_node, touch_node, heartbeat, allocate_shard, deallocate_shard,
  update_shard, Command, create_index_cmd, update_index_cmd, delete_index_cmd, unregister_node_cmd,
  register_node_cmd, update_node_cmd, heartbeat_cmd, allocate_shard_cmd, update_shard_cmd,
  deallocate_shard_cmd, rejected_cmd, execute, apply, apply_all, classify, next_version,
}

-- The pointer of the key leads to a node of that id.
abbrev pub PointsTo : List NodeMeta → String → Ref → Type 0
PointsTo heap k r = (n : NodeMeta) × (get_elem? heap r ≡ some n) × (n.node_id ≡ k)

abbrev pub Named : String → IndexMeta → Type 0
Named k m = m.name ≡ k

abbrev pub Keyed : String → ShardRouting → Type 0
Keyed k s = shard_key s.index_name s.shard_id ≡ k

pub record IsValid (f : Fsm) : Type 0 where
  pub indices_named : AllKeys Named f.state.indices
  pub nodes_live : AllKeys (PointsTo f.heap) f.state.nodes
  pub shards_keyed : AllKeys Keyed f.state.shard_routing

pub new_fsm-IsValid : IsValid new_fsm
unfolding new_fsm
new_fsm-IsValid = record {
  indices_named = AllKeys-nil Named;
  nodes_live = AllKeys-nil (PointsTo []);
  shards_keyed = AllKeys-nil Keyed;
}

-- Two keys never share an object.
pub nodes_distinct :
    (f : Fsm)
    → IsValid f
    → (j k : String) (r : Ref) → lookup j f.state.nodes ≡ some r
    → lookup k f.state.nodes ≡ some r
    → j ≡ k
nodes_distinct f v j k r hj hk = ground (arith, v.nodes_live j r hj, v.nodes_live k r hk)

PointsTo-append :
    (heap : List NodeMeta) (n : NodeMeta) (k : String) (r : Ref)
    → PointsTo heap k r
    → PointsTo (heap ++ n ∷ []) k r
PointsTo-append heap n k r (m, at, named) = (m, get_elem?-append_left heap (n ∷ []) r at, named)

-- What a heartbeat leaves of a node that was read.
abbrev pub seen : ℕ → Option NodeMeta → Option NodeMeta
seen t none = none
seen t (some n) = some (record n { last_seen = t })

pub get_elem?-touch_node :
    (heap : List NodeMeta) (p : Ref) (t : ℕ) (r : Ref)
    → get_elem? (touch_node p t heap) r
      ≡ ite (ℕ_discrete p r) (seen t (get_elem? heap r)) (get_elem? heap r)
unfolding touch_node
get_elem?-touch_node heap p t r = elim (Option-cases (get_elem? heap p)) [
  | inl gone ↦ ground arith
  | inr (n, here) ↦ ground (
    arith,
    get_elem?-set_self heap p (record n { last_seen = t }) here,
    get_elem?-set_ne heap p r (record n { last_seen = t }),
  )
]

-- A heartbeat changes no id.
PointsTo-touch :
    (heap : List NodeMeta) (p : Ref) (t : ℕ) (k : String) (r : Ref)
    → PointsTo heap k r
    → PointsTo (touch_node p t heap) k r
PointsTo-touch heap p t k r (m, at, named) = elim (ℕ_discrete p r) [
  | yes e ↦ (record m { last_seen = t }, ground (arith, get_elem?-touch_node heap p t r), named)
  | no other ↦ (m, ground (arith, get_elem?-touch_node heap p t r), named)
]

module _ (f : Fsm) (v : IsValid f) where
  with_indices-IsValid : (m : Map IndexMeta) → AllKeys Named m → IsValid (with_indices f m)
  with_indices-IsValid m h = record {
    indices_named = h;
    nodes_live = v.nodes_live;
    shards_keyed = v.shards_keyed;
  }

  with_shards-IsValid : (m : Map ShardRouting) → AllKeys Keyed m → IsValid (with_shards f m)
  with_shards-IsValid m h = record {
    indices_named = v.indices_named;
    nodes_live = v.nodes_live;
    shards_keyed = h;
  }

  insert_index-IsValid :
      (i : IndexMeta) → IsValid (with_indices f (insert i.name i f.state.indices))
  insert_index-IsValid i =
      with_indices-IsValid _ (AllKeys-insert Named i.name i f.state.indices refl v.indices_named)

  insert_shard-IsValid :
      (s : ShardRouting)
      → IsValid (with_shards f (insert (shard_key s.index_name s.shard_id) s f.state.shard_routing))
  insert_shard-IsValid s =
      with_shards-IsValid _ (AllKeys-insert Keyed _ s f.state.shard_routing refl v.shards_keyed)

  put_node-IsValid : (n : NodeMeta) → IsValid (put_node f n)
  unfolding put_node
  put_node-IsValid n = record {
    indices_named = v.indices_named;
    nodes_live =
        AllKeys-insert (PointsTo (f.heap ++ n ∷ [])) n.node_id (length f.heap) f.state.nodes
          (n, get_elem?-append_new f.heap n, refl)
          (λ k r e. PointsTo-append f.heap n k r (v.nodes_live k r e));
    shards_keyed = v.shards_keyed;
  }

  touch-IsValid : (r : Ref) (t : ℕ) → IsValid (record f { heap = touch_node r t f.heap })
  touch-IsValid r t = record {
    indices_named = v.indices_named;
    nodes_live = λ k p e. PointsTo-touch f.heap r t k p (v.nodes_live k p e);
    shards_keyed = v.shards_keyed;
  }

create_index-IsValid : (f : Fsm) (i : IndexMeta) → IsValid f → IsValid (create_index f i).0
unfolding create_index
create_index-IsValid f i v = elim (Option-cases (lookup i.name f.state.indices)) [
  | inl new ↦ rw (new, create_index) (insert_index-IsValid f v i)
  | inr (old, at) ↦ rw (at, create_index) v
]

update_index-IsValid : (f : Fsm) (i : IndexMeta) → IsValid f → IsValid (update_index f i).0
unfolding update_index
update_index-IsValid f i v = elim (Option-cases (lookup i.name f.state.indices)) [
  | inl new ↦ rw (new, update_index) v
  | inr (old, at) ↦ rw (at, update_index) (insert_index-IsValid f v i)
]

update_node-IsValid : (f : Fsm) (n : NodeMeta) → IsValid f → IsValid (update_node f n).0
unfolding update_node
update_node-IsValid f n v = elim (Option-cases (lookup n.node_id f.state.nodes)) [
  | inl new ↦ rw (new, update_node) v
  | inr (old, at) ↦ rw (at, update_node) (put_node-IsValid f v n)
]

heartbeat-IsValid : (f : Fsm) (h : Heartbeat) → IsValid f → IsValid (heartbeat f h).0
unfolding heartbeat
heartbeat-IsValid f h v = elim (Option-cases (lookup h.node_id f.state.nodes)) [
  | inl new ↦ rw (new, heartbeat) v
  | inr (r, at) ↦ rw (at, heartbeat) (touch-IsValid f v r h.last_seen)
]

-- Every command keeps the invariant.
pub execute-IsValid : (f : Fsm) (c : Command) → IsValid f → IsValid (execute f c).0
unfolding execute register_node unregister_node delete_index allocate_shard deallocate_shard
    update_shard
execute-IsValid f (create_index_cmd i) v = create_index-IsValid f i v
execute-IsValid f (update_index_cmd i) v = update_index-IsValid f i v
execute-IsValid f (delete_index_cmd n) v =
    with_indices-IsValid f v _ (AllKeys-delete Named n f.state.indices v.indices_named)
execute-IsValid f (unregister_node_cmd n) v = record {
  indices_named = v.indices_named;
  nodes_live = AllKeys-delete (PointsTo f.heap) n f.state.nodes v.nodes_live;
  shards_keyed = v.shards_keyed;
}
execute-IsValid f (register_node_cmd n) v = put_node-IsValid f v n
execute-IsValid f (update_node_cmd n) v = update_node-IsValid f n v
execute-IsValid f (heartbeat_cmd h) v = heartbeat-IsValid f h v
execute-IsValid f (allocate_shard_cmd s) v = insert_shard-IsValid f v s
execute-IsValid f (update_shard_cmd s) v = insert_shard-IsValid f v s
execute-IsValid f (deallocate_shard_cmd r) v =
    with_shards-IsValid f v _ (AllKeys-delete Keyed _ f.state.shard_routing v.shards_keyed)
execute-IsValid f (rejected_cmd e) v = v

module _ (c : Codec) where
  open c use {Raw, decode_command}

  pub next_version-IsValid : (f : Fsm) → IsValid f → IsValid (next_version c f)
  next_version-IsValid f v = record {
    indices_named = v.indices_named;
    nodes_live = v.nodes_live;
    shards_keyed = v.shards_keyed;
  }

  pub apply-IsValid : (f : Fsm) (log : Raw) → IsValid f → IsValid (apply c f log).0
  unfolding apply
  apply-IsValid f log v = elim (Option-cases (decode_command log)) [
    | inl bad ↦ rw (bad, apply) v
    | inr ((kind, payload), good) ↦
        rw (good, apply)
          (execute-IsValid (next_version c f) (classify c kind payload) (next_version-IsValid f v))
  ]

  -- From a machine where every record stands under the key that it names and every node's pointer
  -- leads to a node of that id, any log, its undecodable and failing entries included, reaches a
  -- machine of which the same holds.
  pub apply_all-IsValid : (logs : List Raw) (f : Fsm) → IsValid f → IsValid (apply_all c f logs).0
  unfolding apply_all
  apply_all-IsValid [] f v = v
  apply_all-IsValid (log ∷ logs) f v =
      apply_all-IsValid logs (apply c f log).0 (apply-IsValid f log v)
