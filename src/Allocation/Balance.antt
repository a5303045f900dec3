-- ===== src/Allocation/Balance.antt =====
-- The counts of `RebalanceShards`, pkg/master/allocation/allocator.go: the entries that its loops find, and what the
-- counts have above the average.
use quidditch.Common.{
  ℕ, ◌+◌, ◌-◌, ◌≤◌, ◌<◌, ◌≡◌, ◌≢◌, refl, sym, ap, ◌∙◌, String, none, some, some-injective, [], ◌∷◌,
  Map, lookup, insert, lookup-insert, lookup-nil, ltb, ltb→lt, str_dec, ite, ◌⊎◌, inl, inr, arith,
  Bool-cases,
}
use mathlib.Core.Path.{subst}
use quidditch.Allocation.Rebalance.{total, overloaded_from, underloaded_from, moved, Visits}

-- No key stands twice.
abbrev pub HasDistinctKeys : {A : Type 0} → Map A → Type 0
HasDistinctKeys [] = Unit
HasDistinctKeys ((k, c) ∷ m) = (lookup k m ≡ none) × HasDistinctKeys m

-- A range over a map visits every entry of it once.
pub record IsVisit {A : Type 0} (visit : Map A → Map A) : Type 0 where
  pub distinct : (m : Map A) → HasDistinctKeys m → HasDistinctKeys (visit m)
  pub agrees : (m : Map A) → HasDistinctKeys m → (k : String) → lookup k (visit m) ≡ lookup k m

pub record AreVisits (v : Visits) : Type 0 where
  pub over : IsVisit v.over
  pub under : IsVisit v.under
  pub replicas : IsVisit v.replicas
  pub all_shards : IsVisit v.all_shards

pub insert-HasDistinctKeys :
    (k : String) (c : ℕ) (m : Map ℕ) → HasDistinctKeys m → HasDistinctKeys (insert k c m)
unfolding insert
insert-HasDistinctKeys k c [] d = (lookup-nil k, tt)
insert-HasDistinctKeys k c ((j, b) ∷ m) d =
    elim (str_dec j k)
      as (λ x. HasDistinctKeys (ite {C = Map ℕ} x ((k, c) ∷ m) ((j, b) ∷ insert k c m))) [
        | yes same ↦ (subst (λ i. lookup i m ≡ none) same d.0, d.1)
        | no other ↦ (ground (arith, lookup-insert k j c m), insert-HasDistinctKeys k c m d.1)
      ]

pub lookup-tail :
    {A : Type 0} (j id : String) (b c : A) (m : Map A)
    → lookup j m ≡ none
    → lookup id m ≡ some c
    → lookup id ((j, b) ∷ m) ≡ some c
unfolding lookup
lookup-tail j id b c m gone at = ground arith

pub lookup-head : {A : Type 0} (j : String) (b : A) (m : Map A) → lookup j ((j, b) ∷ m) ≡ some b
unfolding lookup
lookup-head j b m = ground arith

-- The node found is the one so far, or an entry well above.
pub overloaded_from-entry :
    (best : String) (most : ℕ) (m : Map ℕ)
    → HasDistinctKeys m
    → (overloaded_from best most m ≡ best)
      ⊎ ((c : ℕ) × (lookup (overloaded_from best most m) m ≡ some c) × (most + 1 < c))
unfolding overloaded_from
overloaded_from-entry best most [] d = inl refl
overloaded_from-entry best most ((id, c) ∷ m) d = elim (Bool-cases (ltb (most + 1) c)) [
  | inr low ↦ rw low (elim (overloaded_from-entry best most m d.1) [
    | inl same ↦ inl same
    | inr (b, at, above) ↦ inr (b, lookup-tail id _ c b m d.0 at, above)
  ])
  | inl high ↦ rw high (elim (overloaded_from-entry id c m d.1) [
    | inl same ↦ inr (c, rw same (lookup-head id c m), ltb→lt (most + 1) c high)
    | inr (b, at, above) ↦
        inr (b, lookup-tail id _ c b m d.0 at, omega (arith, above, ltb→lt (most + 1) c high))
  ])
]

pub underloaded_from-entry :
    (best : String) (least : ℕ) (m : Map ℕ)
    → HasDistinctKeys m
    → (underloaded_from best least m ≡ best)
      ⊎ ((c : ℕ) × (lookup (underloaded_from best least m) m ≡ some c) × (c + 1 < least))
unfolding underloaded_from
underloaded_from-entry best least [] d = inl refl
underloaded_from-entry best least ((id, c) ∷ m) d = elim (Bool-cases (ltb (c + 1) least)) [
  | inr high ↦ rw high (elim (underloaded_from-entry best least m d.1) [
    | inl same ↦ inl same
    | inr (b, at, below) ↦ inr (b, lookup-tail id _ c b m d.0 at, below)
  ])
  | inl low ↦ rw low (elim (underloaded_from-entry id c m d.1) [
    | inl same ↦ inr (c, rw same (lookup-head id c m), ltb→lt (c + 1) least low)
    | inr (b, at, below) ↦
        inr (b, lookup-tail id _ c b m d.0 at, omega (arith, below, ltb→lt (c + 1) least low))
  ])
]

-- What the counts have above the average.
unfoldable pub excess : ℕ → Map ℕ → ℕ
excess average [] = 0
excess average ((k, c) ∷ m) = let rest = excess average m in (c - average) + rest

excess-insert :
    (average : ℕ) (k : String) (b c : ℕ) (m : Map ℕ)
    → lookup k m ≡ some c
    → excess average (insert k b m) + (c - average) ≡ excess average m + (b - average)
unfolding excess insert lookup
excess-insert average k b c [] at = absurd (cc)
excess-insert average k b c ((j, a) ∷ m) at = ground (arith, excess-insert average k b c m)

pub excess-total : (average : ℕ) (m : Map ℕ) → excess average m ≤ total m
unfolding excess total
excess-total average [] = omega arith
excess-total average ((k, c) ∷ m) = omega (arith, excess-total average m)

-- A move between nodes on either side of the average takes one from the excess.
pub moved-excess :
    (average : ℕ) (from to : String) (a b : ℕ) (m : Map ℕ)
    → lookup from m ≡ some a
    → average + 1 < a
    → lookup to m ≡ some b
    → b + 1 < average
    → excess average (moved from to m) + 1 ≡ excess average m
unfolding moved
moved-excess average from to a b m at above to_at below =
    let apart : from ≢ to = λ e.
      let both : some a ≡ some b = sym at ∙ (ap (λ k. lookup k m) e ∙ to_at) in
      omega (arith, above, below, some-injective a b both) in
    let less = insert from (a - 1) m in
    let there : lookup to less ≡ some b = ground (arith, lookup-insert from to (a - 1) m) in
    rw at (
      rw there (
        omega (
          arith,
          excess-insert average from (a - 1) a m at,
          excess-insert average to (b + 1) b less there,
        )))

pub moved-HasDistinctKeys :
    (from to : String) (m : Map ℕ) → HasDistinctKeys m → HasDistinctKeys (moved from to m)
unfolding moved
moved-HasDistinctKeys from to m d =
    insert-HasDistinctKeys to _ _ (insert-HasDistinctKeys from _ m d)
