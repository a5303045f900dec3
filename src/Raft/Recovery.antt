-- ===== src/Raft/Recovery.antt =====
-- Restoring a snapshot that was persisted, pkg/master/raft/fsm.go.
use mathlib.Core.List.{append_assoc}
use quidditch.Common.{
  ℕ, ◌+◌, ◌≡◌, refl, sym, ◌∙◌, ap, String, none, some, List, [], ◌∷◌, ◌++◌, arith, Map, lookup,
  length, length-append, get_elem?, str_dec, Option-cases, inl, inr,
}
use quidditch.Raft.State.{NodeMeta, Ref, Fsm, Codec}
use quidditch.Raft.Fsm.{apply_all}
use quidditch.Raft.View.{deref, node_of}
use quidditch.Raft.Invariant.{IsValid}
use quidditch.Raft.Sharing.{copy_map, get_state, lookup-copy_map}
use quidditch.Raft.Spec.{Registry-ext, view}
use quidditch.Raft.Refinement.{replicas-agree}
use quidditch.Raft.Snapshot.{
  SnapshotData, SnapshotCodec, follow, marshalled, number_from, objects, unmarshalled, restore,
}

lookup-follow :
    (heap : List NodeMeta) (m : Map Ref) (k : String)
    → ((r : Ref) → lookup k m ≡ some r → (n : NodeMeta) × (get_elem? heap r ≡ some n))
    → lookup k (follow heap m) ≡ deref heap (lookup k m)
unfolding follow lookup
lookup-follow heap [] k live = refl
lookup-follow heap ((j, r) ∷ m) k live = elim (str_dec j k) [
  | yes e ↦ ground (arith, live r)
  | no e ↦ ground (arith, lookup-follow heap m k (λ p q. live p (ground arith)))
]

get_elem?-middle :
    (pre rest : List NodeMeta) (n : NodeMeta) → get_elem? (pre ++ n ∷ rest) (length pre) ≡ some n
get_elem?-middle [] rest n = refl
get_elem?-middle (x ∷ pre) rest n = get_elem?-middle pre rest n

deref-number_from :
    (pre : List NodeMeta) (m : Map NodeMeta) (i : ℕ) (k : String)
    → i ≡ length pre
    → deref (pre ++ objects m) (lookup k (number_from i m)) ≡ lookup k m
unfolding number_from lookup
deref-number_from pre [] i k e = refl
deref-number_from pre ((j, n) ∷ m) i k e =
    let regroup : (pre ++ n ∷ []) ++ objects m ≡ pre ++ n ∷ objects m =
      append_assoc pre (n ∷ []) (objects m) in
    let later =
      deref-number_from (pre ++ n ∷ []) m (i + 1) k (omega (arith, length-append pre (n ∷ []))) in
    let later' = rw regroup at later in
    let here = get_elem?-middle pre (objects m) n in
    elim (str_dec j k) [ yes q ↦ rw e (ground (arith, here)) | no q ↦ ground arith ]

lookup-number_from :
    (m : Map NodeMeta) (i : ℕ) (k : String) (r : Ref)
    → lookup k (number_from i m) ≡ some r
    → (n : NodeMeta) × (lookup k m ≡ some n)
unfolding number_from lookup
lookup-number_from [] i k r e = absurd (cc)
lookup-number_from ((j, n) ∷ m) i k r e = elim (str_dec j k) [
  | yes q ↦ (n, ground arith)
  | no q ↦ let (n', at) = lookup-number_from m (i + 1) k r (ground arith) in (n', ground arith)
]

-- A node that can be read has the id under which it is read.
node_of-named :
    (f : Fsm) → IsValid f → (k : String) (n : NodeMeta) → node_of f k ≡ some n → n.node_id ≡ k
node_of-named f v k n e = elim (Option-cases (lookup k f.state.nodes)) [
  | inl gone ↦ absurd (ground arith)
  | inr (r, at) ↦ let (m, here, named) = v.nodes_live k r at in ground arith
]

module _ (f : Fsm) (v : IsValid f) where
  lookup-marshalled : (k : String) → lookup k (follow f.heap (get_state f).nodes) ≡ node_of f k
  unfolding get_state
  lookup-marshalled k =
      lookup-follow f.heap (copy_map f.state.nodes) k (λ r e.
        let (n, at, named) = v.nodes_live k r (sym (lookup-copy_map k f.state.nodes) ∙ e) in
        (n, at))
      ∙ ap (deref f.heap) (lookup-copy_map k f.state.nodes)

  -- The decoded copy shows what the machine shows.
  view-unmarshalled : view (unmarshalled (marshalled f.heap (get_state f))) ≡ view f
  unfolding unmarshalled marshalled get_state
  view-unmarshalled =
      Registry-ext _ _ refl refl (λ k. lookup-copy_map k f.state.indices)
        (λ k.
          deref-number_from [] (follow f.heap (copy_map f.state.nodes)) 0 k refl
          ∙ lookup-marshalled k)
        (λ k. lookup-copy_map k f.state.shard_routing)

  unmarshalled-IsValid : IsValid (unmarshalled (marshalled f.heap (get_state f)))
  unfolding unmarshalled marshalled get_state
  unmarshalled-IsValid = record {
    indices_named = λ k m e. v.indices_named k m (sym (lookup-copy_map k f.state.indices) ∙ e);
    nodes_live = λ k r e.
        let m = follow f.heap (copy_map f.state.nodes) in
        let (n, at) = lookup-number_from m 0 k r e in
        let here = deref-number_from [] m 0 k refl in
        let known : lookup k m ≡ node_of f k = lookup-marshalled k in
        (n, rw e at (here ∙ at), node_of-named f v k n (sym known ∙ at));
    shards_keyed = λ k s e. v.shards_keyed k s (sym (lookup-copy_map k f.state.shard_routing) ∙ e);
  }

-- Restoring what a valid machine's snapshot was encoded to gives a valid machine with the view of
-- the first, and no error; the first applies the rest of a log with the same responses and views.
pub restore-snapshot :
    (c : SnapshotCodec) (k : Codec) (f g : Fsm) (raw : c.Raw) (logs : List k.Raw)
    → ((d : SnapshotData) (r : c.Raw) → c.encode d ≡ some r → c.decode r ≡ some d)
    → IsValid f
    → c.encode (marshalled f.heap (get_state f)) ≡ some raw
    → let (h, e) = restore c g raw in
      (e ≡ none)
      × IsValid h
      × (view h ≡ view f)
      × (view (apply_all k h logs).0 ≡ view (apply_all k f logs).0)
      × ((apply_all k h logs).1 ≡ (apply_all k f logs).1)
unfolding restore
restore-snapshot c k f g raw logs law v written =
    let h = unmarshalled (marshalled f.heap (get_state f)) in
    let w = unmarshalled-IsValid f v in
    let same = view-unmarshalled f v in
    let (later, answers) = replicas-agree k h f logs w v same in
    rw (law _ raw written, restore) (refl, w, same, later, answers)
