-- ===== src/Allocation/Placement.antt =====
-- Where pkg/master/allocation/allocator.go places shards.
use quidditch.Common.{
  ℕ, zero, suc, ◌≡◌, refl, sym, ap, ◌∙◌, String, true, false, Option, none, some, some-injective,
  List, [], ◌∷◌, ◌++◌, Map, All, All-append, str_eq, eq_iff, ◌≢◌, ◌⊎◌, inl, inr, length, arith,
  Bool-cases,
}
use mathlib.Core.Path.{subst}
use quidditch.Raft.State.{NodeMeta, ShardRouting}
use quidditch.Allocation.Allocator.{
  AllocationDecision, no_data_nodes, IsSort, healthy_data_nodes, shard_count, other_nodes,
  primary_node, times, first, primary_decision, replica_decision, select_node_for_shard,
  select_node_for_replica, primaries, replica_round, replicas, allocate_shards, with_replica,
  least_of, on_nodes,
}

pub All-map :
    {A : Type 0} (P Q : A → Type 0) → ((a : A) → P a → Q a) → (xs : List A) → All P xs → All Q xs
All-map P Q f [] all = tt
All-map P Q f (x ∷ xs) all = (f x all.0, All-map P Q f xs all.1)

other_nodes-All :
    (P : NodeMeta → Type 0) (p : String) (ns : List NodeMeta)
    → All P ns
    → All (λ n. P n × (n.node_id ≢ p)) (other_nodes p ns)
unfolding other_nodes
other_nodes-All P p [] all = tt
other_nodes-All P p (n ∷ ns) all = elim (Bool-cases (str_eq n.node_id p)) [
  | inl same ↦ rw same (other_nodes-All P p ns all.1)
  | inr differ ↦
      rw differ ((all.0, λ e. ground (arith, eq_iff n.node_id p)), other_nodes-All P p ns all.1)
]

-- A replica's decision is no shard's primary.
primary_node-append :
    (id : ℕ) (ds : List AllocationDecision) (d : AllocationDecision)
    → d.is_primary ≡ false
    → primary_node id (ds ++ d ∷ []) ≡ primary_node id ds
unfolding primary_node
primary_node-append id [] d replica = ground arith
primary_node-append id (e ∷ ds) d replica = rw (primary_node-append id ds d replica) refl

module _ (sort : (NodeMeta → ℕ) → List NodeMeta → List NodeMeta) (law : IsSort sort)
    (shards : Map ShardRouting) (P : NodeMeta → Type 0) where
  least_of-All :
      (Q : NodeMeta → Type 0) (cs : List NodeMeta) (n : NodeMeta)
      → All Q cs
      → least_of sort shards cs ≡ some n
      → Q n
  least_of-All Q [] n all e = absurd (cc)
  least_of-All Q (c ∷ cs) n all e =
      let (y, ys, is, _) = law.first_least (shard_count shards) c cs in
      let here : All Q (y ∷ ys) =
        subst (All Q) is (law.keeps Q (shard_count shards) (c ∷ cs) all) in
      subst Q (some-injective _ _ (ap first (sym is) ∙ e)) here.0

  -- A decision on a node that has the property, and a replica's away from its primary.
  abbrev Good : (ℕ → String) → AllocationDecision → Type 0
  Good prim d =
      ((n : NodeMeta) × P n × (d.node_id ≡ n.node_id))
      × (d.is_primary ≡ false → d.node_id ≢ prim d.shard_id)

  abbrev Kept : (ℕ → String) → List AllocationDecision → Type 0
  Kept prim ds = All (Good prim) ds × ((id : ℕ) → primary_node id ds ≡ prim id)

  with_replica-Kept :
      (prim : ℕ → String) (index : String) (id replica : ℕ) (n : Option NodeMeta)
      (ds : List AllocationDecision)
      → Kept prim ds
      → ((m : NodeMeta) → n ≡ some m → P m × (m.node_id ≢ prim id))
      → Kept prim (with_replica sort shards index id replica n ds)
  unfolding replica_decision
  with_replica-Kept prim index id replica none ds kept good = kept
  with_replica-Kept prim index id replica (some n) ds kept good =
      let (p, apart) = good n refl in
      (
        All-append (Good prim) ds _ kept.0 (((n, p, refl), λ _. apart), tt),
        λ j. primary_node-append j ds (replica_decision index id replica n) refl ∙ kept.1 j,
      )

  replica_round-Kept :
      (prim : ℕ → String) (index : String) (replica k id : ℕ) (nodes : List NodeMeta)
      (ds : List AllocationDecision)
      → All P nodes
      → Kept prim ds
      → Kept prim (replica_round sort shards index replica k id nodes ds)
  unfolding replica_round select_node_for_replica
  replica_round-Kept prim index replica zero id nodes ds all kept = kept
  replica_round-Kept prim index replica (suc k) id nodes ds all kept =
      replica_round-Kept prim index replica k (suc id) nodes _ all (
        with_replica-Kept prim index id replica _ ds kept (λ m e.
          subst (λ q. P m × (m.node_id ≢ q)) (kept.1 id)
            (least_of-All (λ n. P n × (n.node_id ≢ primary_node id ds)) _ m
              (other_nodes-All P (primary_node id ds) nodes all) e)))

  replicas-Kept :
      (prim : ℕ → String) (index : String) (k j replica : ℕ) (nodes : List NodeMeta)
      (ds : List AllocationDecision)
      → All P nodes
      → Kept prim ds
      → Kept prim (replicas sort shards index k j replica nodes ds)
  unfolding replicas
  replicas-Kept prim index k zero replica nodes ds all kept = kept
  replicas-Kept prim index k (suc j) replica nodes ds all kept =
      replicas-Kept prim index k j (suc replica) nodes _ all
        (replica_round-Kept prim index replica k 0 nodes ds all kept)

  abbrev OnNode : AllocationDecision → Type 0
  OnNode d = ((n : NodeMeta) × P n × (d.node_id ≡ n.node_id)) × (d.is_primary ≡ true)

  -- The primaries: one decision for each shard, and the nodes are still there.
  primaries-end :
      (index : String) (k id : ℕ) (n : NodeMeta) (ns : List NodeMeta)
      → All P (n ∷ ns)
      → (ds : List AllocationDecision) × (nodes : List NodeMeta) × (primaries sort shards index k id
            (n ∷ ns)
          ≡ inr (ds, nodes))
        × (length ds ≡ k)
        × All OnNode ds
        × All P nodes
  unfolding primaries select_node_for_shard
  primaries-end index zero id n ns all = ([], n ∷ ns, refl, refl, tt, all)
  primaries-end index (suc k) id n ns all =
      let (y, ys, is, _) = law.first_least (shard_count shards) n ns in
      let here : All P (y ∷ ys) =
        subst (All P) is (law.keeps P (shard_count shards) (n ∷ ns) all) in
      let (ds, nodes, ends, len, on, left) = primaries-end index k (suc id) y ys here in
      (
        primary_decision index id y ∷ ds,
        nodes,
        rw (is, primaries) (rw ends refl),
        ap suc len,
        (((y, here.0, refl), refl), on),
        left,
      )

-- A data node that is healthy.
abbrev pub IsUsable : NodeMeta → Type 0
IsUsable n = (n.node_type ≡ "data") × (n.status ≡ "healthy")

healthy_data_nodes-All :
    (P : NodeMeta → Type 0) (m : Map NodeMeta)
    → All (λ e. P e.1) m
    → All (λ n. P n × IsUsable n) (healthy_data_nodes m)
unfolding healthy_data_nodes
healthy_data_nodes-All P [] all = tt
healthy_data_nodes-All P ((k, n) ∷ m) all = elim (Bool-cases (str_eq n.node_type "data")) [
  | inr other ↦ rw other (healthy_data_nodes-All P m all.1)
  | inl data_node ↦ elim (Bool-cases (str_eq n.status "healthy")) [
    | inr ill ↦ rw (data_node, ill) (healthy_data_nodes-All P m all.1)
    | inl well ↦
        rw (data_node, well)
          (
            (all.0, ((eq_iff n.node_type "data").0 data_node, (eq_iff n.status "healthy").0 well)),
            healthy_data_nodes-All P m all.1,
          )
  ]
]

-- A decision of an allocation: on a usable node with the property, and a replica away from the node
-- of its shard's primary.
pub record IsPlaced (P : NodeMeta → Type 0) (ds : List AllocationDecision) (d : AllocationDecision)
    : Type 0 where
  pub node : NodeMeta
  pub holds : P node
  pub usable : IsUsable node
  pub named : d.node_id ≡ node.node_id
  pub apart : d.is_primary ≡ false → d.node_id ≢ primary_node d.shard_id ds

module _ (sort : (NodeMeta → ℕ) → List NodeMeta → List NodeMeta) (law : IsSort sort)
    (shards : Map ShardRouting) where
  -- `AllocateShards` on a state whose nodes all have a property (that they are in the state, say): it
  -- fails when no data node is healthy, and otherwise always gives decisions, each on a healthy
  -- data node with the property, and no replica on the node of its shard's primary.
  pub allocate_shards-IsPlaced :
      (P : NodeMeta → Type 0) (nodes : Map NodeMeta) (index : String) (num_shards num_replicas : ℕ)
      → All (λ e. P e.1) nodes
      → ((healthy_data_nodes nodes ≡ [])
          × (allocate_shards sort shards nodes index num_shards num_replicas ≡ inl no_data_nodes))
        ⊎ ((ds : List AllocationDecision) × (allocate_shards sort shards nodes index num_shards
                num_replicas
              ≡ inr ds)
            × All (IsPlaced P ds) ds)
  unfolding allocate_shards
  allocate_shards-IsPlaced P nodes index num_shards num_replicas all =
      placed (healthy_data_nodes nodes) refl (healthy_data_nodes-All P nodes all)
    where
      placed :
          (ns : List NodeMeta)
          → healthy_data_nodes nodes ≡ ns
          → All (λ n. P n × IsUsable n) ns
          → ((healthy_data_nodes nodes ≡ [])
              × (on_nodes sort shards index
                    (times num_shards)
                    (times num_replicas)
                    (healthy_data_nodes nodes)
                  ≡ inl no_data_nodes))
            ⊎ ((ds : List AllocationDecision) × (on_nodes sort shards index
                    (times num_shards)
                    (times num_replicas)
                    (healthy_data_nodes nodes)
                  ≡ inr ds)
                × All (IsPlaced P ds) ds)
      placed [] e good = inl (e, rw e refl)
      placed (n ∷ ns) e good =
          let (ds, left, ends, _, on, still) =
            primaries-end sort law shards (λ m. P m × IsUsable m) index (times num_shards) 0 n ns
              good in
          let (goods, agree) =
            replicas-Kept sort law shards (λ m. P m × IsUsable m) (λ id. primary_node id ds) index
              (times num_shards) (times num_replicas) 0 left ds still
              (All-map _ _ (λ d (at, prim). (at, λ r. absurd (cc))) ds on, λ id. refl) in
          inr (
            _,
            rw e (rw ends refl),
            All-map _ _
                (λ d (at, away). record {
                  node = at.0;
                  holds = at.1.0;
                  usable = at.1.1;
                  named = at.2;
                  apart = λ r. subst (λ q. d.node_id ≢ q) (sym (agree d.shard_id)) (away r);
                })
                _ goods,
          )
