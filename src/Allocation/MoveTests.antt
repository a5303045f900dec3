-- ===== src/Allocation/MoveTests.antt =====
-- The theorems on the rebalancing of pkg/master/allocation at a crowded node.
use quidditch.Common.{
  ℕ, ◌≡◌, ◌≢◌, ◌∙◌, inl, inr, ap, lookup-nil, arith, ◌⊎◌, refl, sym, none, ite, String, Bool, true,
  false, some, List, [], ◌∷◌, Map, All, str_dec, lookup, insert,
}
use mathlib.Core.Path.{subst}
use quidditch.Raft.State.{NodeMeta, ShardRouting}
use quidditch.Allocation.Allocator.{healthy_data_nodes}
use quidditch.Allocation.Rebalance.{
  RebalanceDecision, Visits, zero_counts, count_shards, total, overloaded_from, underloaded_from,
  first_shard_on, find_shard_to_move, moved, move, rebalance_rounds, rebalance_shards,
}
use quidditch.Allocation.Balance.{HasDistinctKeys, lookup-head, IsVisit, AreVisits}
use quidditch.Allocation.Rounds.{IsMove, lookup-cons}
use quidditch.Allocation.Moves.{IsOnlyReplica, rebalance_shards-ends, rebalance_shards-same_shard}

abbrev node_of : String → NodeMeta
node_of id = record {
  node_id = id;
  node_type = "data";
  bind_addr = "10.0.0.1";
  grpc_port = 9303;
  storage_tier = "hot";
  max_shards = 100;
  status = "healthy";
  joined_at = 1;
  last_seen = 2;
}

abbrev nodes : Map NodeMeta
nodes = ("n1", node_of "n1") ∷ ("n2", node_of "n2") ∷ []

abbrev route : ℕ → Bool → ShardRouting
route id primary = record {
  index_name = "logs";
  shard_id = id;
  is_primary = primary;
  node_id = "n1";
  state = "started";
  version = 1;
}

-- Six shards on the first of two nodes.
abbrev crowded : Map ShardRouting
crowded =
    ("logs:0", route 0 true)
    ∷ ("logs:1", route 1 true)
    ∷ ("logs:2", route 2 false)
    ∷ ("logs:3", route 3 true)
    ∷ ("logs:4", route 4 true)
    ∷ ("logs:5", route 5 true)
    ∷ []

-- The first loop of each round visits its map from the back, the others from the front.
abbrev swapped : {A : Type 0} → Map A → Map A
swapped (a ∷ b ∷ []) = b ∷ a ∷ []
swapped m = m

abbrev orders : ℕ → Visits
orders n = record { over = λ m. swapped m; under = λ m. m; replicas = λ m. m; all_shards = λ m. m }

pass_over :
    {A : Type 0} (j k : String) (a : A) (m : Map A) → j ≢ k → lookup k ((j, a) ∷ m) ≡ lookup k m
unfolding lookup
pass_over j k a m n = elim (str_dec j k) as (λ x. ite x (some a) (lookup k m) ≡ lookup k m) [
  | yes e ↦ absurd (n e)
  | no _ ↦ refl
]

not_there : {A : Type 0} (j k : String) (a : A) (m : Map A) → lookup k ((j, a) ∷ m) ≡ none → j ≢ k
not_there j k a m gone e =
    absurd (ground (arith, gone, subst (λ i. lookup i ((j, a) ∷ m) ≡ some a) e (lookup-head j a m)))

swapped-HasDistinctKeys : {A : Type 0} (m : Map A) → HasDistinctKeys m → HasDistinctKeys (swapped m)
swapped-HasDistinctKeys [] d = d
swapped-HasDistinctKeys (a ∷ []) d = d
swapped-HasDistinctKeys ((j, a) ∷ (k, b) ∷ []) d =
    (pass_over j k a [] (λ e. not_there k j b [] d.0 (sym e)) ∙ lookup-nil k, (lookup-nil j, tt))
swapped-HasDistinctKeys (a ∷ b ∷ c ∷ m) d = d

lookup-swapped :
    {A : Type 0} (m : Map A) → HasDistinctKeys m → (k : String) → lookup k (swapped m) ≡ lookup k m
unfolding lookup
lookup-swapped [] d k = refl
lookup-swapped (a ∷ []) d k = refl
lookup-swapped ((i, a) ∷ (j, b) ∷ []) d k =
    elim (str_dec i k)
      as (λ x. lookup k ((j, b) ∷ (i, a) ∷ []) ≡ ite x (some a) (lookup k ((j, b) ∷ []))) [
        | yes e ↦
            pass_over j k b ((i, a) ∷ []) (λ f. not_there j i b [] d.0 (f ∙ sym e))
            ∙ subst (λ z. lookup z ((i, a) ∷ []) ≡ some a) e (lookup-head i a [])
        | no n ↦
            elim (str_dec j k)
              as (λ x. ite x (some b) (lookup k ((i, a) ∷ [])) ≡ ite x (some b) none) [
                | yes _ ↦ refl
                | no _ ↦ pass_over i k a [] n
              ]
      ]
lookup-swapped (a ∷ b ∷ c ∷ m) d k = refl

swapped-IsVisit : {A : Type 0} → IsVisit {A = A} swapped
swapped-IsVisit = record {
  distinct = swapped-HasDistinctKeys;
  agrees = λ m d k. lookup-swapped m d k;
}

plain-IsVisit : {A : Type 0} → IsVisit {A = A} (λ m. m)
plain-IsVisit = record { distinct = λ m d. d; agrees = λ m d k. refl }

orders-AreVisits : (n : ℕ) → AreVisits (orders n)
orders-AreVisits n = record {
  over = swapped-IsVisit;
  under = plain-IsVisit;
  replicas = plain-IsVisit;
  all_shards = plain-IsVisit;
}

crowded-distinct : HasDistinctKeys crowded
unfolding lookup str_dec
crowded-distinct = (refl, (refl, (refl, (refl, (refl, (refl, tt))))))

rebalance_shards-ends_example :
    (ds : List RebalanceDecision) × (rebalance_shards orders nodes crowded ≡ some ds)
    × All (IsMove crowded) ds
rebalance_shards-ends_example =
    rebalance_shards-ends orders nodes crowded orders-AreVisits crowded-distinct

-- A round levels the counts to five and one, the next to four and two.
abbrev two_moves : List RebalanceDecision
two_moves = move "n1" "n2" (route 2 false) ∷ move "n1" "n2" (route 2 false) ∷ []

crowded_moves : rebalance_shards orders nodes crowded ≡ some two_moves
unfolding rebalance_shards healthy_data_nodes rebalance_rounds total count_shards lookup zero_counts
    insert str_dec overloaded_from underloaded_from first_shard_on find_shard_to_move moved
crowded_moves = refl

the_replica : lookup "logs:2" crowded ≡ some (route 2 false)
unfolding lookup str_dec
the_replica = refl

past_primary :
    (k j : String) (p t : ShardRouting) (m : Map ShardRouting)
    → p.is_primary ≡ true
    → lookup k ((j, p) ∷ m) ≡ some t
    → t.is_primary ≡ false
    → lookup k m ≡ some t
past_primary k j p t m primary at replica = elim (lookup-cons k j p t m at) [
  | inl same ↦ absurd (ground (arith, ap (λ x. x.is_primary) same))
  | inr later ↦ later
]

crowded-IsOnlyReplica : IsOnlyReplica "n1" (route 2 false) crowded
crowded-IsOnlyReplica k t at on replica =
    let one = past_primary k "logs:0" (route 0 true) t _ refl at replica in
    let two = past_primary k "logs:1" (route 1 true) t _ refl one replica in
    elim (lookup-cons k "logs:2" (route 2 false) t _ two) [
      | inl same ↦ sym same
      | inr later ↦
          let three = past_primary k "logs:3" (route 3 true) t _ refl later replica in
          let four = past_primary k "logs:4" (route 4 true) t _ refl three replica in
          let five = past_primary k "logs:5" (route 5 true) t _ refl four replica in
          absurd (ground (arith, five, lookup-nil {V = ShardRouting} k))
    ]

rebalance_shards-same_shard_example :
    All
      (λ d.
        (d.from_node ≢ "n1")
        ⊎ ((d.index_name ≡ "logs") × (◌≡◌ {A = ℕ} d.shard_id 2) × (d.is_primary ≡ false)))
      two_moves
rebalance_shards-same_shard_example =
    rebalance_shards-same_shard orders nodes crowded two_moves "logs:2" (route 2 false)
      orders-AreVisits crowded-distinct the_replica refl crowded-IsOnlyReplica crowded_moves
