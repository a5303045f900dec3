-- ===== src/Raft/Reads.antt =====
-- What each method of pkg/master/raft/fsm.go leaves to be read of the nodes, key by key.
use quidditch.Common.{
  ℕ, ◌≡◌, ap, ◌∙◌, String, none, some, [], ◌∷◌, ◌++◌, arith, lookup, lookup-insert, lookup-delete,
  str_dec, ite, length, get_elem?-append_left, get_elem?-append_new, Option-cases, inl, inr,
}
use quidditch.Raft.State.{NodeMeta, Ref, Fsm}
use quidditch.Raft.Fsm.{put_node, unregister_node, touch_node}
use quidditch.Raft.View.{node_in, node_of}
use quidditch.Raft.Invariant.{IsValid, nodes_distinct, seen, get_elem?-touch_node}

-- A new object hides none of the old ones.
pub node_in-append :
    (f : Fsm) (n : NodeMeta) (k : String)
    → IsValid f
    → node_in (f.heap ++ n ∷ []) f.state k ≡ node_of f k
node_in-append f n k v = elim (Option-cases (lookup k f.state.nodes)) [
  | inl gone ↦ rw gone
  | inr (r, at) ↦
      let (m, here, named) = v.nodes_live k r at in
      ground (arith, get_elem?-append_left f.heap (n ∷ []) r here)
]

module _ (f : Fsm) (v : IsValid f) (k : String) where
  pub node_of-put_node :
      (n : NodeMeta) → node_of (put_node f n) k ≡ ite (str_dec n.node_id k) (some n) (node_of f k)
  unfolding put_node
  node_of-put_node n = ground (
    arith,
    lookup-insert n.node_id k (length f.heap) f.state.nodes,
    get_elem?-append_new f.heap n,
    node_in-append f n k v,
  )

  pub node_of-unregister_node :
      (id : String) → node_of (unregister_node f id).0 k ≡ ite (str_dec id k) none (node_of f k)
  unfolding unregister_node
  node_of-unregister_node id = ground (arith, lookup-delete id k f.state.nodes)

  pub node_of-touch_node :
      (id : String) (r : Ref) (t : ℕ)
      → lookup id f.state.nodes ≡ some r
      → node_in (touch_node r t f.heap) f.state k
        ≡ ite (str_dec id k) (seen t (node_of f k)) (node_of f k)
  node_of-touch_node id r t at = elim (Option-cases (lookup k f.state.nodes)) [
    | inl gone ↦ ground arith
    | inr (p, here) ↦ ground (
      arith,
      get_elem?-touch_node f.heap r t p,
      (λ (e : r ≡ p). nodes_distinct f v id k p (at ∙ ap some e) here),
    )
  ]
