-- ===== src/Allocation/Tests.antt =====
-- The theorems on pkg/master/allocation with insertion sort as `sort.Slice`.
use quidditch.Common.{
  ℕ, ◌≤◌, ◌≡◌, refl, sym, String, Bool, true, false, List, [], ◌∷◌, Map, All, ◌⊎◌, inl, inr, arith,
  leb, leb→le,
}
use mathlib.Core.Path.{subst}
use quidditch.Raft.State.{NodeMeta, ShardRouting}
use quidditch.Allocation.Allocator.{
  AllocationDecision, no_data_nodes, IsSort, healthy_data_nodes, allocate_shards,
}
use quidditch.Allocation.Placement.{IsPlaced, allocate_shards-IsPlaced}

abbrev place : Bool → NodeMeta → NodeMeta → List NodeMeta → List NodeMeta → List NodeMeta
place true n m ms rest = n ∷ m ∷ ms
place false n m ms rest = m ∷ rest

abbrev put : (NodeMeta → ℕ) → NodeMeta → List NodeMeta → List NodeMeta
put f n [] = n ∷ []
put f n (m ∷ ms) = place (leb (f n) (f m)) n m ms (put f n ms)

abbrev insertion_sort : (NodeMeta → ℕ) → List NodeMeta → List NodeMeta
insertion_sort f [] = []
insertion_sort f (n ∷ ns) = put f n (insertion_sort f ns)

module _ (P : NodeMeta → Type 0) (f : NodeMeta → ℕ) where
  place-All :
      (b : Bool) (n m : NodeMeta) (ms rest : List NodeMeta)
      → P n
      → P m
      → All P ms
      → All P rest
      → All P (place b n m ms rest)
  place-All true n m ms rest pn pm all rall = (pn, (pm, all))
  place-All false n m ms rest pn pm all rall = (pm, rall)

  put-All : (n : NodeMeta) (ms : List NodeMeta) → P n → All P ms → All P (put f n ms)
  put-All n [] p all = (p, tt)
  put-All n (m ∷ ms) p all = place-All _ n m ms _ p all.0 all.1 (put-All n ms p all.1)

  All-place :
      (b : Bool) (n m : NodeMeta) (ms rest : List NodeMeta)
      → All P (place b n m ms rest)
      → (All P rest → P n × All P ms)
      → P n × (P m × All P ms)
  All-place true n m ms rest all back = all
  All-place false n m ms rest all back = ((back all.1).0, (all.0, (back all.1).1))

  All-put : (n : NodeMeta) (ms : List NodeMeta) → All P (put f n ms) → P n × All P ms
  All-put n [] all = (all.0, tt)
  All-put n (m ∷ ms) all = All-place _ n m ms _ all (All-put n ms)

  sort-All : (ns : List NodeMeta) → All P ns → All P (insertion_sort f ns)
  sort-All [] all = tt
  sort-All (n ∷ ns) all = put-All n _ all.0 (sort-All ns all.1)

  All-sort : (ns : List NodeMeta) → All P (insertion_sort f ns) → All P ns
  All-sort [] all = tt
  All-sort (n ∷ ns) all = let (p, rest) = All-put n _ all in (p, All-sort ns rest)

module _ (f : NodeMeta → ℕ) where
  -- The first element is a least one.
  abbrev Leads : List NodeMeta → Type 0
  Leads [] = Unit
  Leads (n ∷ ns) = All (λ z. f n ≤ f z) (n ∷ ns)

  All-le :
      (n m : NodeMeta) (ms : List NodeMeta)
      → f n ≤ f m
      → All (λ z. f m ≤ f z) ms
      → All (λ z. f n ≤ f z) ms
  All-le n m [] le all = tt
  All-le n m (x ∷ ms) le all = (omega (arith, le, all.0), All-le n m ms le all.1)

  place-Leads :
      (b : Bool) (n m : NodeMeta) (ms : List NodeMeta)
      → leb (f n) (f m) ≡ b
      → Leads (m ∷ ms)
      → Leads (place b n m ms (put f n ms))
  place-Leads true n m ms e all =
      let le = leb→le (f n) (f m) e in (omega arith, All-le n m (m ∷ ms) le all)
  place-Leads false n m ms e all =
      (omega arith, put-All (λ z. f m ≤ f z) f n ms (ground arith) all.1)

  put-Leads : (n : NodeMeta) (ms : List NodeMeta) → Leads ms → Leads (put f n ms)
  put-Leads n [] all = (omega arith, tt)
  put-Leads n (m ∷ ms) all = place-Leads _ n m ms refl all

  sort-Leads : (ns : List NodeMeta) → Leads (insertion_sort f ns)
  sort-Leads [] = tt
  sort-Leads (n ∷ ns) = put-Leads n _ (sort-Leads ns)

  place-some :
      (b : Bool) (n m : NodeMeta) (ms rest : List NodeMeta)
      → (y : NodeMeta) × (ys : List NodeMeta) × (place b n m ms rest ≡ y ∷ ys)
  place-some true n m ms rest = (n, m ∷ ms, refl)
  place-some false n m ms rest = (m, rest, refl)

  put-some :
      (n : NodeMeta) (ms : List NodeMeta)
      → (y : NodeMeta) × (ys : List NodeMeta) × (put f n ms ≡ y ∷ ys)
  put-some n [] = (n, [], refl)
  put-some n (m ∷ ms) = place-some _ n m ms _

  sort-first :
      (n : NodeMeta) (ns : List NodeMeta)
      → (y : NodeMeta) × (ys : List NodeMeta) × (insertion_sort f (n ∷ ns) ≡ y ∷ ys)
        × All (λ z. f y ≤ f z) (n ∷ ns)
  sort-first n ns =
      let (y, ys, is) = put-some n (insertion_sort f ns) in
      let leads : Leads (y ∷ ys) = subst Leads is (sort-Leads (n ∷ ns)) in
      (
        y,
        ys,
        is,
        All-sort (λ z. f y ≤ f z) f (n ∷ ns) (subst (All (λ z. f y ≤ f z)) (sym is) leads),
      )

insertion_sort-IsSort : IsSort insertion_sort
insertion_sort-IsSort = record {
  keeps = λ P f xs all. sort-All P f xs all;
  loses_none = λ P f xs all. All-sort P f xs all;
  first_least = sort-first;
}

abbrev node_of : String → NodeMeta
node_of id = record {
  node_id = id;
  node_type = "data";
  bind_addr = "10.0.0.1";
  grpc_port = 9303;
  storage_tier = "hot";
  max_shards = 100;
  status = "healthy";
  joined_at = 1;
  last_seen = 2;
}

abbrev nodes : Map NodeMeta
nodes = ("n1", node_of "n1") ∷ ("n2", node_of "n2") ∷ []

-- One shard, on the first node.
abbrev routing : Map ShardRouting
routing =
    (
      "logs:0",
      record {
        index_name = "logs";
        shard_id = 0;
        is_primary = true;
        node_id = "n1";
        state = "started";
        version = 1;
      },
    )
    ∷ []

abbrev Known : NodeMeta → Type 0
Known n = n.max_shards ≡ 100

allocate_shards-IsPlaced_example :
    ((healthy_data_nodes nodes ≡ [])
      × (allocate_shards insertion_sort routing nodes "goods" 3 1 ≡ inl no_data_nodes))
    ⊎ ((ds : List AllocationDecision) × (allocate_shards insertion_sort routing nodes "goods" 3 1
          ≡ inr ds)
        × All (IsPlaced Known ds) ds)
allocate_shards-IsPlaced_example =
    allocate_shards-IsPlaced insertion_sort insertion_sort-IsSort routing Known nodes "goods" 3 1
      (refl, (refl, tt))
