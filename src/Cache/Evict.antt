-- ===== src/Cache/Evict.antt =====
-- The loops of `evictIfNeeded`, pkg/coordination/cache/lru_cache.go.
use mathlib.Core.List.{append_assoc, append-nil}
use mathlib.Core.Path.{subst}
use quidditch.Common.{
  ℕ, zero, suc, ◌+◌, ◌-◌, ◌^◌, ◌<◌, ◌≡◌, inl, inr, refl, ap, sym, ◌∙◌, true, false, some, List, [],
  ◌∷◌, ◌++◌, arith, length, length-append, wrap64, lt64, Bool-cases,
}
use quidditch.Cache.Lru.{
  Entry, LruCache, find, back, remove_element, evict_oldest, over_capacity, over_size,
  evict_capacity, evict_size,
}
use quidditch.Cache.Entries.{
  Distinct, SizesFit, total_size, init-append-back, without-back, without-Distinct,
  without-SizesFit, total_size-without, find-size, find-back, back-some,
}

-- The entries have distinct keys, and `currentSize` is the sum of their sizes as an int64.
pub record Consistent {ℓ} {V : Type ℓ} (c : LruCache V) : Type ℓ where
  pub distinct : Distinct c.eviction_list
  pub sizes : SizesFit c.eviction_list
  pub counted : c.current_size ≡ wrap64 (total_size c.eviction_list)

-- `c'` is `c` less the entries `dropped`, which stood at the back; each is counted as an eviction.
pub record Dropped {ℓ} {V : Type ℓ} (c c' : LruCache V) (dropped : List (Entry V)) : Type ℓ where
  pub kept : c'.eviction_list ++ dropped ≡ c.eviction_list
  pub evictions : wrap64 c'.evictions ≡ wrap64 (c.evictions + length dropped)
  pub capacity : c'.capacity ≡ c.capacity
  pub max_size : c'.max_size ≡ c.max_size
  pub ttl : c'.ttl ≡ c.ttl
  pub hits : c'.hits ≡ c.hits
  pub misses : c'.misses ≡ c.misses
  pub expirations : c'.expirations ≡ c.expirations

module _ {ℓ} {V : Type ℓ} where
  pub remove_element-Consistent :
      (c : LruCache V) (e : Entry V)
      → Consistent c
      → find e.key c.eviction_list ≡ some e
      → Consistent (remove_element c e)
  unfolding remove_element
  remove_element-Consistent c e v at = record {
    distinct = without-Distinct e.key c.eviction_list v.distinct;
    sizes = without-SizesFit e.key c.eviction_list v.sizes;
    counted = omega (
      arith,
      v.counted,
      total_size-without e.key c.eviction_list e at,
      find-size e.key c.eviction_list e v.sizes at,
    );
  }

  back_of_pos : (l : List (Entry V)) → 0 < length l → (e : Entry V) × (back l ≡ some e)
  back_of_pos [] h = absurd (omega arith)
  back_of_pos (x ∷ l) h = back-some x l

  -- What one eviction does: the entry at the back goes.
  module _ (c : LruCache V) (e : Entry V) (v : Consistent c)
      (last : back c.eviction_list ≡ some e) where
    evict_oldest-Consistent : Consistent (evict_oldest c)
    unfolding evict_oldest
    evict_oldest-Consistent =
        let w = remove_element-Consistent c e v (find-back c.eviction_list e v.distinct last) in
        rw (last, evict_oldest)
          (record { distinct = w.distinct; sizes = w.sizes; counted = w.counted })

    evict_oldest-Dropped : Dropped c (evict_oldest c) (e ∷ [])
    unfolding evict_oldest remove_element
    evict_oldest-Dropped =
        rw (last, evict_oldest)
          (record {
            kept =
                rw (without-back c.eviction_list e v.distinct last)
                  (init-append-back c.eviction_list e last);
            evictions = omega arith;
            capacity = refl;
            max_size = refl;
            ttl = refl;
            hits = refl;
            misses = refl;
            expirations = refl;
          })

  pub Dropped-refl : (c : LruCache V) → Dropped c c []
  Dropped-refl c = record {
    kept = append-nil c.eviction_list;
    evictions = omega arith;
    capacity = refl;
    max_size = refl;
    ttl = refl;
    hits = refl;
    misses = refl;
    expirations = refl;
  }

  pub Dropped-trans :
      (c d e : LruCache V) (xs ys : List (Entry V))
      → Dropped c d xs
      → Dropped d e ys
      → Dropped c e (ys ++ xs)
  Dropped-trans c d e xs ys p q = record {
    kept = sym (append_assoc e.eviction_list ys xs) ∙ ap (λ l. l ++ xs) q.kept ∙ p.kept;
    evictions = omega (arith, p.evictions, q.evictions, length-append ys xs);
    capacity = q.capacity ∙ p.capacity;
    max_size = q.max_size ∙ p.max_size;
    ttl = q.ttl ∙ p.ttl;
    hits = q.hits ∙ p.hits;
    misses = q.misses ∙ p.misses;
    expirations = q.expirations ∙ p.expirations;
  }

  -- The last of the dropped entries to go was over the limit: with it the total exceeds the maximum.
  abbrev pub NeededFor : ℕ → List (Entry V) → List (Entry V) → Type 0
  NeededFor max_size l [] = Unit
  NeededFor max_size l (e ∷ _) = lt64 max_size (wrap64 (total_size (l ++ e ∷ []))) ≡ true

  -- The first loop ends with the capacity respected, having dropped what was above it.
  pub evict_capacity-ends :
      (fuel : ℕ) (c : LruCache V)
      → length c.eviction_list < fuel
      → c.capacity < 2 ^ 63
      → Consistent c
      → (c' : LruCache V) × (dropped : List (Entry V)) × (evict_capacity fuel c ≡ some c')
        × Consistent c'
        × Dropped c c' dropped
        × (length dropped ≡ length c.eviction_list - c.capacity)
  unfolding evict_capacity
  evict_capacity-ends zero c enough fits v = absurd (omega arith)
  evict_capacity-ends (suc fuel) c enough fits v = elim (Bool-cases (over_capacity c)) [
    | inr within ↦ (c, [], rw (within, evict_capacity), v, Dropped-refl c, ground arith)
    | inl over ↦
        let (e, last) = back_of_pos c.eviction_list (ground arith) in
        let one = evict_oldest-Dropped c e v last in
        let above : c.capacity < length c.eviction_list = ground arith in
        let shorter : length (evict_oldest c).eviction_list + 1 ≡ length c.eviction_list =
          omega
            (arith, ap length one.kept, length-append (evict_oldest c).eviction_list (e ∷ [])) in
        let (c', dropped, ends, w, more, count) =
          evict_capacity-ends fuel (evict_oldest c) (omega arith) (omega (arith, one.capacity))
            (evict_oldest-Consistent c e v last) in
        (
          c',
          dropped ++ e ∷ [],
          rw (over, evict_capacity) ends,
          w,
          Dropped-trans c (evict_oldest c) c' (e ∷ []) dropped one more,
          omega (arith, count, one.capacity, shorter, length-append dropped (e ∷ [])),
        )
  ]

  NeededFor-append :
      (m : ℕ) (l dropped : List (Entry V)) (e : Entry V)
      → NeededFor m l dropped
      → lt64 m (wrap64 (total_size (l ++ (dropped ++ e ∷ [])))) ≡ true
      → NeededFor m l (dropped ++ e ∷ [])
  NeededFor-append m l [] e n h = h
  NeededFor-append m l (x ∷ dropped) e n h = n

  -- The second loop ends with the total within the maximum or nothing left, having dropped no more
  -- than it had to.
  pub evict_size-ends :
      (fuel : ℕ) (c : LruCache V)
      → length c.eviction_list < fuel
      → Consistent c
      → (c' : LruCache V) × (dropped : List (Entry V)) × (evict_size fuel c ≡ some c')
        × Consistent c'
        × Dropped c c' dropped
        × (over_size c' ≡ false)
        × NeededFor c.max_size c'.eviction_list dropped
  unfolding evict_size
  evict_size-ends zero c enough v = absurd (omega arith)
  evict_size-ends (suc fuel) c enough v = elim (Bool-cases (over_size c)) [
    | inr within ↦ (c, [], rw (within, evict_size), v, Dropped-refl c, within, tt)
    | inl over ↦
        let (e, last) = back_of_pos c.eviction_list (ground arith) in
        let one = evict_oldest-Dropped c e v last in
        let heavy : lt64 c.max_size (wrap64 (total_size c.eviction_list)) ≡ true =
          ground (arith, v.counted) in
        let shorter : length (evict_oldest c).eviction_list + 1 ≡ length c.eviction_list =
          omega
            (arith, ap length one.kept, length-append (evict_oldest c).eviction_list (e ∷ [])) in
        let (c', dropped, ends, w, more, done, need) =
          evict_size-ends fuel (evict_oldest c) (omega arith)
            (evict_oldest-Consistent c e v last) in
        let all = Dropped-trans c (evict_oldest c) c' (e ∷ []) dropped one more in
        (
          c',
          dropped ++ e ∷ [],
          rw (over, evict_size) ends,
          w,
          all,
          done,
          NeededFor-append c.max_size c'.eviction_list dropped e (rw one.max_size at need)
              (subst (λ l. lt64 c.max_size (wrap64 (total_size l)) ≡ true) (sym all.kept) heavy),
        )
  ]
