-- ===== src/Raft/Spec.antt =====
-- What pkg/master/raft/fsm.go promises, with no pointers and no maps: a registry is three functions
-- from keys to records, and a command changes what is read at its own key.
use quidditch.Common.{ℕ, ◌≡◌, String, Option, none, some, List, [], ◌∷◌, str_dec, ite, add64}
use quidditch.Raft.State.{
  IndexMeta, NodeMeta, ShardRouting, Fsm, Error, Codec, bad_command, index_exists, no_index,
  no_node, shard_key,
}
use quidditch.Raft.Fsm.{
  Command, create_index_cmd, update_index_cmd, delete_index_cmd, unregister_node_cmd,
  register_node_cmd, update_node_cmd, heartbeat_cmd, allocate_shard_cmd, update_shard_cmd,
  deallocate_shard_cmd, rejected_cmd, classify,
}
use quidditch.Raft.View.{node_of, index_of, shard_of}
use quidditch.Raft.Invariant.{seen}

pub record Registry : Type 0 where
  pub version : ℕ
  pub cluster_uuid : String
  pub index : String → Option IndexMeta
  pub node : String → Option NodeMeta
  pub shard : String → Option ShardRouting

-- Registries are equal when all that can be read of them is.
pub Registry-ext :
    (r s : Registry)
    → r.version ≡ s.version
    → r.cluster_uuid ≡ s.cluster_uuid
    → ((k : String) → r.index k ≡ s.index k)
    → ((k : String) → r.node k ≡ s.node k)
    → ((k : String) → r.shard k ≡ s.shard k)
    → r ≡ s
Registry-ext r s a b c d e = λ i. record {
  version = a i;
  cluster_uuid = b i;
  index = λ k. c k i;
  node = λ k. d k i;
  shard = λ k. e k i;
}

-- The registry that a machine stands for.
abbrev pub view : Fsm → Registry
view f = record {
  version = f.state.version;
  cluster_uuid = f.state.cluster_uuid;
  index = index_of f;
  node = node_of f;
  shard = shard_of f;
}

-- A function changed at one key.
abbrev pub at_key {ℓ} : {A : Type ℓ} → String → A → (String → A) → String → A
at_key k a g j = ite (str_dec k j) a (g j)

abbrev pub present {ℓ} :
    {A : Type ℓ} → Option A → Registry → Registry → Error → Registry × Option Error
present none r _ e = (r, some e)
present (some _) _ r' _ = (r', none)

abbrev pub absent {ℓ} :
    {A : Type ℓ} → Option A → Registry → Registry → Error → Registry × Option Error
absent none _ r' _ = (r', none)
absent (some _) r _ e = (r, some e)

-- The specification of each command.
abbrev pub obey : Command → Registry → Registry × Option Error
obey (create_index_cmd i) r =
    absent (r.index i.name) r (record r { index = at_key i.name (some i) r.index })
      (index_exists i.name)
obey (update_index_cmd i) r =
    present (r.index i.name) r (record r { index = at_key i.name (some i) r.index })
      (no_index i.name)
obey (delete_index_cmd k) r = (record r { index = at_key k none r.index }, none)
obey (register_node_cmd n) r = (record r { node = at_key n.node_id (some n) r.node }, none)
obey (unregister_node_cmd k) r = (record r { node = at_key k none r.node }, none)
obey (update_node_cmd n) r =
    present (r.node n.node_id) r (record r { node = at_key n.node_id (some n) r.node })
      (no_node n.node_id)
obey (heartbeat_cmd h) r =
    present (r.node h.node_id) r
      (record r { node = at_key h.node_id (seen h.last_seen (r.node h.node_id)) r.node })
      (no_node h.node_id)
obey (allocate_shard_cmd s) r =
    (record r { shard = at_key (shard_key s.index_name s.shard_id) (some s) r.shard }, none)
obey (update_shard_cmd s) r =
    (record r { shard = at_key (shard_key s.index_name s.shard_id) (some s) r.shard }, none)
obey (deallocate_shard_cmd q) r =
    (record r { shard = at_key (shard_key q.index_name q.shard_id) none r.shard }, none)
obey (rejected_cmd e) r = (r, some e)

-- A machine does what a specification says: the view and the response agree.
abbrev pub Agrees : Fsm × Option Error → Registry × Option Error → Type 0
Agrees o s = (view o.0 ≡ s.0) × (o.1 ≡ s.1)

module _ (c : Codec) where
  open c use {Raw, decode_command}

  abbrev pub obey_decoded : Registry → Option (String × Raw) → Registry × Option Error
  obey_decoded r none = (r, some bad_command)
  obey_decoded r (some (kind, payload)) =
      obey (classify c kind payload) (record r { version = add64 r.version 1 })

  -- The specification of `Apply`: the version counts every entry that decodes.
  abbrev pub obey_entry : Registry → Raw → Registry × Option Error
  obey_entry r log = obey_decoded r (decode_command log)

  unfoldable pub obey_all : Registry → List Raw → Registry × List (Option Error)
  obey_all r [] = (r, [])
  obey_all r (log ∷ logs) =
      let (r', e) = obey_entry r log in let (r'', es) = obey_all r' logs in (r'', e ∷ es)
