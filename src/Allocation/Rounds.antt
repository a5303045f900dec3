-- ===== src/Allocation/Rounds.antt =====
-- The rounds of `RebalanceShards`, pkg/master/allocation/allocator.go: the shard that one moves, and their end.
use quidditch.Common.{
  ℕ, zero, suc, ◌+◌, ◌<◌, ◌≡◌, ◌≢◌, refl, sym, ap, ◌∙◌, String, Bool, true, false, Option, none,
  some, some-injective, List, [], ◌∷◌, Map, lookup, lookup-nil, All, str_eq, str_dec, eq_iff, ite,
  ◌⊎◌, inl, inr, arith, Bool-cases, Option-cases,
}
use mathlib.Core.Path.{subst}
use quidditch.Raft.State.{ShardRouting}
use quidditch.Allocation.Rebalance.{
  RebalanceDecision, find_overloaded_node, find_underloaded_node, first_shard_on,
  find_shard_to_move, Visits, moved, move, round, rebalance_rounds,
}
use quidditch.Allocation.Balance.{
  HasDistinctKeys, IsVisit, AreVisits, lookup-tail, lookup-head, overloaded_from-entry,
  underloaded_from-entry, excess, moved-excess, moved-HasDistinctKeys,
}

-- No replica of the routing is on the node.
abbrev pub HasNoReplica : String → Map ShardRouting → Type 0
HasNoReplica id shards =
    (k : String) (s : ShardRouting)
    → lookup k shards ≡ some s
    → (s.node_id ≢ id) ⊎ (s.is_primary ≡ true)

-- A shard that the routing places on the node that it leaves, for another node; a primary only
-- where no replica is on that node.
pub record IsMove (shards : Map ShardRouting) (d : RebalanceDecision) : Type 0 where
  pub key : String
  pub shard : ShardRouting
  pub at : lookup key shards ≡ some shard
  pub there : shard.node_id ≡ d.from_node
  pub same :
      (d.index_name ≡ shard.index_name)
      × (d.shard_id ≡ shard.shard_id)
      × (d.is_primary ≡ shard.is_primary)
  pub last : (d.is_primary ≡ false) ⊎ HasNoReplica d.from_node shards
  pub apart : d.from_node ≢ d.to_node

-- What a loop of `findShardToMove` finds.
abbrev pub IsOn : Bool → String → Map ShardRouting → ShardRouting → Type 0
IsOn replicas_only id m s =
    (k : String) × (lookup k m ≡ some s)
    × (s.node_id ≡ id)
    × ((replicas_only ≡ false) ⊎ (s.is_primary ≡ false))

later-IsOn :
    (replicas_only : Bool) (id k : String) (t s : ShardRouting) (m : Map ShardRouting)
    → lookup k m ≡ none
    → IsOn replicas_only id m s
    → IsOn replicas_only id ((k, t) ∷ m) s
later-IsOn replicas_only id k t s m gone (j, at, on, free) =
    (j, lookup-tail k j t s m gone at, on, free)

pub first_shard_on-IsOn :
    (replicas_only : Bool) (id : String) (m : Map ShardRouting) (s : ShardRouting)
    → HasDistinctKeys m
    → first_shard_on replicas_only id m ≡ some s
    → IsOn replicas_only id m s
unfolding first_shard_on
first_shard_on-IsOn r id [] s d h = absurd (cc)
first_shard_on-IsOn r id ((k, t) ∷ m) s d h =
    let later : first_shard_on r id m ≡ some s → IsOn r id ((k, t) ∷ m) s =
      λ e. later-IsOn r id k t s m d.0 (first_shard_on-IsOn r id m s d.1 e) in
    let here : t ≡ s
        → t.node_id ≡ id
        → (r ≡ false) ⊎ (t.is_primary ≡ false)
        → IsOn r id ((k, t) ∷ m) s =
      λ e on free. subst (λ x. IsOn r id ((k, t) ∷ m) x) e (k, lookup-head k t m, on, free) in
    elim (Bool-cases (str_eq t.node_id id)) [
      | inr other ↦ later (ground arith)
      | inl on ↦ elim (Bool-cases r) [
        | inr any ↦ here (ground arith) (ground (arith, eq_iff t.node_id id)) (inl any)
        | inl only ↦ elim (Bool-cases t.is_primary) [
          | inl primary ↦ later (ground arith)
          | inr replica ↦ here (ground arith) (ground (arith, eq_iff t.node_id id)) (inr replica)
        ]
      ]
    ]

pub lookup-cons :
    (k j : String) (t s : ShardRouting) (m : Map ShardRouting)
    → lookup k ((j, t) ∷ m) ≡ some s
    → (t ≡ s) ⊎ (lookup k m ≡ some s)
unfolding lookup
lookup-cons k j t s m at =
    elim (str_dec j k)
        as (λ x. ite x (some t) (lookup k m) ≡ some s → (t ≡ s) ⊎ (lookup k m ≡ some s)) [
          | yes same ↦ λ h. inl (some-injective t s h)
          | no other ↦ λ h. inr h
        ]
      at

pub first_shard_on-none :
    (id : String) (m : Map ShardRouting) → first_shard_on true id m ≡ none → HasNoReplica id m
unfolding first_shard_on
first_shard_on-none id [] h k s at = absurd (ground (arith, at, lookup-nil {V = ShardRouting} k))
first_shard_on-none id ((j, t) ∷ m) h k s at = elim (Bool-cases (str_eq t.node_id id)) [
  | inl on ↦ elim (Bool-cases t.is_primary) [
    | inr replica ↦ absurd (ground arith)
    | inl primary ↦ elim (lookup-cons k j t s m at) [
      | inl same ↦ inr (sym (ap (λ x. x.is_primary) same) ∙ primary)
      | inr later ↦ first_shard_on-none id m (ground arith) k s later
    ]
  ]
  | inr off ↦ elim (lookup-cons k j t s m at) [
    | inl same ↦ inl (λ e. ground (arith, off, eq_iff t.node_id id, ap (λ x. x.node_id) same ∙ e))
    | inr later ↦ first_shard_on-none id m (ground arith) k s later
  ]
]

-- What `findShardToMove` returns, in the terms of the state.
find_shard_to_move-IsMove :
    (v : Visits) (shards : Map ShardRouting) (from to : String) (s : ShardRouting)
    → AreVisits v
    → HasDistinctKeys shards
    → find_shard_to_move (v.replicas shards) (v.all_shards shards) from ≡ some s
    → from ≢ to
    → IsMove shards (move from to s)
unfolding find_shard_to_move
find_shard_to_move-IsMove v shards from to s law d h apart =
    elim (Option-cases (first_shard_on true from (v.replicas shards))) [
      | inr (t, hit) ↦
          let (k, at, there, free) =
            first_shard_on-IsOn true from _ s (law.replicas.distinct shards d)
              (hit ∙ ground arith) in
          record {
            key = k;
            shard = s;
            at = sym (law.replicas.agrees shards d k) ∙ at;
            there = there;
            same = (refl, refl, refl);
            last = inl (ground arith);
            apart = apart;
          }
      | inl miss ↦
          let (k, at, there, _) =
            first_shard_on-IsOn false from _ s (law.all_shards.distinct shards d) (ground arith) in
          record {
            key = k;
            shard = s;
            at = sym (law.all_shards.agrees shards d k) ∙ at;
            there = there;
            same = (refl, refl, refl);
            last = inr (λ j t is.
                first_shard_on-none from _ miss j t (law.replicas.agrees shards d j ∙ is));
            apart = apart;
          }
    ]

round-end :
    (from to : String) (s : Option ShardRouting) (rest : Option (List RebalanceDecision))
    (shards : Map ShardRouting)
    → ((t : ShardRouting) → s ≡ some t → from ≢ to → IsMove shards (move from to t))
    → (str_eq from "" ≡ false
        → str_eq to "" ≡ false
        → (from ≢ to) × ((ds : List RebalanceDecision) × (rest ≡ some ds) × All (IsMove shards) ds))
    → (ds : List RebalanceDecision) × (round from to s rest ≡ some ds) × All (IsMove shards) ds
round-end from to none rest shards is later = ([], refl, tt)
round-end from to (some s) rest shards is later = elim (Bool-cases (str_eq from "")) [
  | inl stop ↦ ([], ground arith, tt)
  | inr on ↦ elim (Bool-cases (str_eq to "")) [
    | inl stop ↦ ([], ground arith, tt)
    | inr go ↦
        let (apart, (ds, ends, moves)) = later on go in
        (move from to s ∷ ds, rw ends (ground arith), (is s refl apart, moves))
  ]
]

-- An entry of the map that a loop visits is one of the map.
entry_of :
    (P : ℕ → Type 0) (id : String) (visit : Map ℕ → Map ℕ) (m : Map ℕ)
    → IsVisit visit
    → HasDistinctKeys m
    → (id ≡ "") ⊎ ((c : ℕ) × (lookup id (visit m) ≡ some c) × P c)
    → (id ≡ "") ⊎ ((c : ℕ) × (lookup id m ≡ some c) × P c)
entry_of P id visit m law d (inl e) = inl e
entry_of P id visit m law d (inr (c, at, is)) = inr (c, sym (law.agrees m d id) ∙ at, is)

-- Neither node is "": both are entries, on either side of the average.
both_entries :
    (average : ℕ) (m : Map ℕ) (from to : String)
    → (from ≡ "") ⊎ ((a : ℕ) × (lookup from m ≡ some a) × (average + 1 < a))
    → (to ≡ "") ⊎ ((b : ℕ) × (lookup to m ≡ some b) × (b + 1 < average))
    → str_eq from "" ≡ false
    → str_eq to "" ≡ false
    → (from ≢ to) × (excess average (moved from to m) + 1 ≡ excess average m)
both_entries average m from to (inl none_over) under on go = absurd (ground (arith, eq_iff from ""))
both_entries average m from to (inr over) (inl none_under) on go =
    absurd (ground (arith, eq_iff to ""))
both_entries average m from to (inr (a, at, above)) (inr (b, to_at, below)) on go =
    (λ e. apart a b at above to_at below e, moved-excess average from to a b m at above to_at below)
  where
    apart :
        (a b : ℕ)
        → lookup from m ≡ some a
        → average + 1 < a
        → lookup to m ≡ some b
        → b + 1 < average
        → from ≡ to
        → ⊥
    apart a b at above to_at below e =
        let both : some a ≡ some b = sym at ∙ (ap (λ k. lookup k m) e ∙ to_at) in
        omega (arith, above, below, some-injective a b both)

pub rounds-end :
    (orders : ℕ → Visits) (fuel : ℕ) (shards : Map ShardRouting) (average : ℕ) (m : Map ℕ)
    → ((n : ℕ) → AreVisits (orders n))
    → HasDistinctKeys shards
    → HasDistinctKeys m
    → excess average m < fuel
    → (ds : List RebalanceDecision) × (rebalance_rounds orders fuel shards average m ≡ some ds)
      × All (IsMove shards) ds
unfolding rebalance_rounds
rounds-end orders zero shards average m laws ks d enough = absurd (omega arith)
rounds-end orders (suc fuel) shards average m laws ks d enough =
    let v = orders fuel in
    let law = laws fuel in
    let from = find_overloaded_node (v.over m) average in
    let to = find_underloaded_node (v.under m) average in
    round-end from to _ _ shards
      (λ t is apart. find_shard_to_move-IsMove v shards from to t law ks is apart)
      (λ on go.
        let (apart, less) =
          both_entries average m from to
            (entry_of (λ c. average + 1 < c) from v.over m law.over d
              (overloaded_from-entry "" average (v.over m) (law.over.distinct m d)))
            (entry_of (λ c. c + 1 < average) to v.under m law.under d
              (underloaded_from-entry "" average (v.under m) (law.under.distinct m d)))
            on go in
        (
          apart,
          rounds-end orders fuel shards average (moved from to m) laws ks
              (moved-HasDistinctKeys from to m d) (omega (arith, less, enough)),
        ))
