-- ===== src/Raft/Refinement.antt =====
-- The machine of pkg/master/raft/fsm.go against its specification.
use mathlib.Core.Path.{fun_ext, ap₂}
use quidditch.Common.{
  ◌≡◌, refl, String, Option, none, some, List, [], ◌∷◌, arith, lookup, insert, delete,
  lookup-insert, lookup-delete, ap, sym, ◌∙◌, str_dec, Option-cases, inl, inr,
}
use quidditch.Raft.State.{IndexMeta, NodeMeta, ShardRouting, Fsm, Heartbeat, Codec, shard_key}
use quidditch.Raft.Fsm.{
  Command, create_index_cmd, update_index_cmd, delete_index_cmd, unregister_node_cmd,
  register_node_cmd, update_node_cmd, heartbeat_cmd, allocate_shard_cmd, update_shard_cmd,
  deallocate_shard_cmd, rejected_cmd, with_indices, with_shards, create_index, delete_index,
  update_index, put_node, register_node, unregister_node, update_node, heartbeat, allocate_shard,
  deallocate_shard, update_shard, execute, classify, next_version, apply, apply_all,
}
use quidditch.Raft.View.{node_of, index_of, shard_of}
use quidditch.Raft.Invariant.{IsValid, next_version-IsValid, apply-IsValid}
use quidditch.Raft.Reads.{node_of-put_node, node_of-unregister_node, node_of-touch_node}
use quidditch.Raft.Spec.{view, at_key, obey, Agrees, obey_entry, obey_all}

module _ (f : Fsm) where
  view-insert_index :
      (i : IndexMeta)
      → view (with_indices f (insert i.name i f.state.indices))
        ≡ record (view f) { index = at_key i.name (some i) (index_of f) }
  view-insert_index i =
      ap (λ (g : String → Option IndexMeta). record (view f) { index = g })
        (fun_ext (λ j. lookup-insert i.name j i f.state.indices))

  view-delete_index :
      (k : String)
      → view (with_indices f (delete k f.state.indices))
        ≡ record (view f) { index = at_key k none (index_of f) }
  view-delete_index k =
      ap (λ (g : String → Option IndexMeta). record (view f) { index = g })
        (fun_ext (λ j. lookup-delete k j f.state.indices))

  view-insert_shard :
      (k : String) (s : ShardRouting)
      → view (with_shards f (insert k s f.state.shard_routing))
        ≡ record (view f) { shard = at_key k (some s) (shard_of f) }
  view-insert_shard k s =
      ap (λ (g : String → Option ShardRouting). record (view f) { shard = g })
        (fun_ext (λ j. lookup-insert k j s f.state.shard_routing))

  view-delete_shard :
      (k : String)
      → view (with_shards f (delete k f.state.shard_routing))
        ≡ record (view f) { shard = at_key k none (shard_of f) }
  view-delete_shard k =
      ap (λ (g : String → Option ShardRouting). record (view f) { shard = g })
        (fun_ext (λ j. lookup-delete k j f.state.shard_routing))

module _ (f : Fsm) (v : IsValid f) where
  view-put_node :
      (n : NodeMeta)
      → view (put_node f n) ≡ record (view f) { node = at_key n.node_id (some n) (node_of f) }
  unfolding put_node
  view-put_node n =
      ap (λ (g : String → Option NodeMeta). record (view f) { node = g })
        (fun_ext (λ j. unfold put_node in node_of-put_node f v j n))

  view-unregister_node :
      (k : String)
      → view (unregister_node f k).0 ≡ record (view f) { node = at_key k none (node_of f) }
  unfolding unregister_node
  view-unregister_node k =
      ap (λ (g : String → Option NodeMeta). record (view f) { node = g })
        (fun_ext (λ j. node_of-unregister_node f v j k))

  create_index-Agrees :
      (i : IndexMeta) → Agrees (create_index f i) (obey (create_index_cmd i) (view f))
  unfolding create_index
  create_index-Agrees i = elim (Option-cases (lookup i.name f.state.indices)) [
    | inl new ↦ rw (new, create_index) (view-insert_index f i, refl)
    | inr (old, at) ↦ rw (at, create_index) (refl, refl)
  ]

  update_index-Agrees :
      (i : IndexMeta) → Agrees (update_index f i) (obey (update_index_cmd i) (view f))
  unfolding update_index
  update_index-Agrees i = elim (Option-cases (lookup i.name f.state.indices)) [
    | inl new ↦ rw (new, update_index) (refl, refl)
    | inr (old, at) ↦ rw (at, update_index) (view-insert_index f i, refl)
  ]

  update_node-Agrees : (n : NodeMeta) → Agrees (update_node f n) (obey (update_node_cmd n) (view f))
  unfolding update_node
  update_node-Agrees n = elim (Option-cases (lookup n.node_id f.state.nodes)) [
    | inl new ↦ rw (new, update_node) (refl, refl)
    | inr (r, at) ↦
        let (m, here, named) = v.nodes_live n.node_id r at in
        rw (at, update_node) (rw here (view-put_node n, refl))
  ]

  heartbeat-Agrees : (h : Heartbeat) → Agrees (heartbeat f h) (obey (heartbeat_cmd h) (view f))
  unfolding heartbeat
  heartbeat-Agrees h = elim (Option-cases (lookup h.node_id f.state.nodes)) [
    | inl new ↦ rw (new, heartbeat) (refl, refl)
    | inr (r, at) ↦
        let (m, here, named) = v.nodes_live h.node_id r at in
        rw (at, heartbeat)
          (rw here (
            ap (λ (g : String → Option NodeMeta). record (view f) { node = g })
                (fun_ext (λ j. elim (str_dec h.node_id j) [
                  | yes e ↦ ground (arith, node_of-touch_node f v j h.node_id r h.last_seen at)
                  | no e ↦ ground (arith, node_of-touch_node f v j h.node_id r h.last_seen at)
                ])),
            refl,
          ))
  ]

-- Every command, on a machine whose records stand under the keys that they name, changes what can
-- be read and answers as the specification says: creation fails exactly if the name is taken,
-- updates and heartbeats fail exactly if there is nothing under the key, a failure changes nothing,
-- and a success changes what is read at its own key only.
pub execute-Agrees : (f : Fsm) (c : Command) → IsValid f → Agrees (execute f c) (obey c (view f))
unfolding execute register_node delete_index allocate_shard deallocate_shard update_shard
execute-Agrees f (create_index_cmd i) v = create_index-Agrees f v i
execute-Agrees f (update_index_cmd i) v = update_index-Agrees f v i
execute-Agrees f (delete_index_cmd k) v = (view-delete_index f k, refl)
execute-Agrees f (unregister_node_cmd k) v =
    (view-unregister_node f v k, unfold unregister_node in refl)
execute-Agrees f (register_node_cmd n) v = (view-put_node f v n, refl)
execute-Agrees f (update_node_cmd n) v = update_node-Agrees f v n
execute-Agrees f (heartbeat_cmd h) v = heartbeat-Agrees f v h
execute-Agrees f (allocate_shard_cmd s) v =
    (view-insert_shard f (shard_key s.index_name s.shard_id) s, refl)
execute-Agrees f (update_shard_cmd s) v =
    (view-insert_shard f (shard_key s.index_name s.shard_id) s, refl)
execute-Agrees f (deallocate_shard_cmd q) v =
    (view-delete_shard f (shard_key q.index_name q.shard_id), refl)
execute-Agrees f (rejected_cmd e) v = (refl, refl)

module _ (c : Codec) where
  open c use {Raw, decode_command}

  pub apply-Agrees :
      (f : Fsm) (log : Raw) → IsValid f → Agrees (apply c f log) (obey_entry c (view f) log)
  unfolding apply
  apply-Agrees f log v = elim (Option-cases (decode_command log)) [
    | inl bad ↦ rw (bad, apply) (refl, refl)
    | inr ((kind, payload), good) ↦
        rw (good, apply)
          (execute-Agrees (next_version c f) (classify c kind payload) (next_version-IsValid c f v))
  ]

  -- A log applied to a machine whose records stand under the keys that they name gives the
  -- responses of the specification, in order, and a machine with the specification's view.
  pub apply_all-obey_all :
      (logs : List Raw) (f : Fsm)
      → IsValid f
      → (view (apply_all c f logs).0 ≡ (obey_all c (view f) logs).0)
        × ((apply_all c f logs).1 ≡ (obey_all c (view f) logs).1)
  unfolding apply_all obey_all
  apply_all-obey_all [] f v = (refl, refl)
  apply_all-obey_all (log ∷ logs) f v =
      let (seen_now, said) = apply-Agrees f log v in
      let (later, answers) = apply_all-obey_all logs (apply c f log).0 (apply-IsValid c f log v) in
      let later' = rw seen_now at later in
      let answers' = rw seen_now at answers in (later', ap₂ ◌∷◌ said answers')

  -- Two machines that show the same view, as replicas do, answer a log alike and show the same view
  -- after it, whatever objects they keep behind their pointers.
  pub replicas-agree :
      (f g : Fsm) (logs : List Raw)
      → IsValid f
      → IsValid g
      → view f ≡ view g
      → (view (apply_all c f logs).0 ≡ view (apply_all c g logs).0)
        × ((apply_all c f logs).1 ≡ (apply_all c g logs).1)
  replicas-agree f g logs v w e =
      let (a, b) = apply_all-obey_all logs f v in
      let (a', b') = apply_all-obey_all logs g w in
      (
        a ∙ ap (λ r. (obey_all c r logs).0) e ∙ sym a',
        b ∙ ap (λ r. (obey_all c r logs).1) e ∙ sym b',
      )
