-- ===== src/Cache/Reads.antt =====
-- What `Put` of pkg/coordination/cache/lru_cache.go leaves to a later `Get`, and where its limits
-- fail.
use quidditch.Common.{
  ℕ, zero, suc, ◌+◌, ◌^◌, ◌≤◌, ◌<◌, ◌≡◌, ◌≢◌, inl, inr, refl, ap, String, true, false, none, some,
  List, [], ◌∷◌, ◌++◌, arith, ltb, length, add64, sub64, wrap64, lt64, Bool-cases, Option-cases,
}
use quidditch.Cache.Lru.{
  Entry, LruCache, find, without, over_size, evict_if_needed, evict_capacity, evict_oldest,
  push_new, refresh, get, put, remove_element,
}
use quidditch.Cache.Entries.{
  total_size, find-key, total_size-without, find-size, length-without, find-without_ne,
}
use quidditch.Cache.Evict.{NeededFor}
use quidditch.Cache.Limits.{IsValid, Evicted}
use quidditch.Cache.Calls.{put-new}

module _ {ℓ} {V : Type ℓ} where
  -- A cache reads the value of the entry at its front, until it expires.
  get-front :
      (now : ℕ) (k : String) (e : Entry V) (l : List (Entry V)) (c : LruCache V)
      → c.eviction_list ≡ e ∷ l
      → e.key ≡ k
      → now ≤ e.expires_at
      → (get now k c).1 ≡ some e.value
  unfolding get find
  get-front now k e l c at same live =
      let here : find k c.eviction_list ≡ some e = ground arith in rw (here, get) (ground arith)

  -- The new entry stays: the limits have room for it alone.
  front_stays :
      (c c' : LruCache V) (e : Entry V) (l by_count by_size : List (Entry V))
      → c.eviction_list ≡ e ∷ l
      → length l ≤ c.capacity
      → 0 < c.capacity
      → (lt64 0 c.max_size ≡ true → lt64 c.max_size (wrap64 e.size) ≡ false)
      → Evicted c c' by_count by_size
      → (rest : List (Entry V)) × (c'.eviction_list ≡ e ∷ rest)
  front_stays c c' e l by_count by_size at bounded room fits ev =
      go c'.eviction_list by_size ev.dropped.kept ev.needed ev.unlimited
    where
      go :
          (left second : List (Entry V))
          → left ++ (second ++ by_count) ≡ c.eviction_list
          → NeededFor c.max_size left second
          → (lt64 0 c.max_size ≡ false → second ≡ [])
          → (rest : List (Entry V)) × (left ≡ e ∷ rest)
      go (x ∷ left) second kept need free = (left, ground arith)
      go [] [] kept need free = absurd (omega (arith, ap length kept, ap length at, ev.count))
      go [] (x ∷ second) kept need free = elim (Bool-cases (lt64 0 c.max_size)) [
        | inr unlimited ↦ cc (free unlimited)
        | inl limited ↦
            let size : x.size + 0 ≡ e.size = ground arith in cc (rw size at need, fits limited)
      ]

  -- A value that `Put` stores in a cache that keeps the invariant is what a `Get` of its key returns
  -- before the entry expires, if the capacity is positive and the value's size alone is within a
  -- positive maximum: neither limit evicts the entry just stored.
  pub get-put_self :
      (c : LruCache V) (now later : ℕ) (k : String) (x : V) (size : ℕ)
      → IsValid c
      → size < 2 ^ 64
      → 0 < c.capacity
      → (lt64 0 c.max_size ≡ true → lt64 c.max_size (wrap64 size) ≡ false)
      → later ≤ now + c.ttl
      → (c' : LruCache V) × (put now k x size c ≡ some c') × ((get later k c').1 ≡ some x)
  unfolding put
  get-put_self c now later k x size v small room fits soon =
      elim (Option-cases (find k c.eviction_list)) [
        | inl new ↦
            let (c', by_count, by_size, ends, ev) = put-new c v now k x size small new in
            let (rest, front) =
              front_stays (push_new now k x size c) c' _ c.eviction_list by_count by_size refl
                v.bounded room fits ev in
            (c', unfold put in ends, get-front later k _ rest c' front refl soon)
        | inr (e, at) ↦ (
          refresh now x size e c,
          rw (at, put),
          get-front later k
              (record e { value = x; size = size; expires_at = now + c.ttl; accessed_at = now })
              (without e.key c.eviction_list) (refresh now x size e c) refl
              (find-key k c.eviction_list e at) soon,
        )
      ]

  -- `Put` on a key that is there evicts nothing: whenever the new total is above a positive maximum, the call returns with
  -- the total above the maximum, as many entries as before, no eviction counted, and every other key with its entry.
  pub put_update_exceeds :
      (c : LruCache V) (now : ℕ) (k : String) (x : V) (size : ℕ) (e : Entry V)
      → IsValid c
      → find k c.eviction_list ≡ some e
      → lt64 c.max_size (wrap64 (total_size (without k c.eviction_list) + size)) ≡ true
      → (c' : LruCache V) × (put now k x size c ≡ some c')
        × (over_size c' ≡ true)
        × (length c'.eviction_list ≡ length c.eviction_list)
        × (c'.evictions ≡ c.evictions)
        × ((j : String) → j ≢ k → find j c'.eviction_list ≡ find j c.eviction_list)
  unfolding put find
  put_update_exceeds c now k x size e v at heavy =
      let l = c.eviction_list in
      let own = find-key k l e at in
      let total : add64 (sub64 c.current_size e.size) size
          ≡ wrap64 (total_size (without k l) + size) =
        omega (
          arith,
          v.consistent.counted,
          total_size-without k l e at,
          find-size k l e v.consistent.sizes at,
        ) in
      (
        refresh now x size e c,
        rw (at, put),
        ground (arith, total, heavy),
        omega (arith, length-without k l e at, ap (λ j. length (without j l)) own),
        refl,
        (λ j apart.
            ground (arith, find-without_ne k j l apart, ap (λ i. find j (without i l)) own, own)),
      )

  capacity-evict_oldest : (d : LruCache V) → (evict_oldest d).capacity ≡ d.capacity
  unfolding evict_oldest remove_element
  capacity-evict_oldest d = ground arith

  evict_capacity-none :
      (fuel : ℕ) (c : LruCache V) → ltb c.capacity (2 ^ 63) ≡ false → evict_capacity fuel c ≡ none
  unfolding evict_capacity
  evict_capacity-none zero c h = refl
  evict_capacity-none (suc fuel) c h =
      let next : ltb (evict_oldest c).capacity (2 ^ 63) ≡ false = rw capacity-evict_oldest h in
      rw h (evict_capacity-none fuel (evict_oldest c) next)

  -- In a cache of negative capacity the loop of `Put` on a new key does not end: no number of rounds
  -- is enough for it.
  pub put_negative_hangs :
      (c : LruCache V) (now : ℕ) (k : String) (x : V) (size fuel : ℕ)
      → ltb c.capacity (2 ^ 63) ≡ false
      → find k c.eviction_list ≡ none
      → (evict_capacity fuel (push_new now k x size c) ≡ none) × (put now k x size c ≡ none)
  unfolding put evict_if_needed
  put_negative_hangs c now k x size fuel h new =
      let d = push_new now k x size c in
      (
        evict_capacity-none fuel d h,
        rw (new, put) (ground (arith, evict_capacity-none (length d.eviction_list + 1) d h)),
      )
