-- ===== src/Cache/Limits.antt =====
-- The limits of pkg/coordination/cache/lru_cache.go: `evictIfNeeded` as a whole, and what `Put`
-- keeps of them.
use mathlib.Core.Path.{subst}
use quidditch.Common.{
  ◌+◌, ◌-◌, ◌^◌, ◌≤◌, ◌<◌, ◌≡◌, inl, inr, refl, ap, true, false, some, List, [], ◌++◌, arith,
  length, length-append, lt64, Bool-cases,
}
use quidditch.Cache.Lru.{Entry, LruCache, over_size, evict_if_needed}
use quidditch.Cache.Evict.{
  Consistent, Dropped, Dropped-trans, NeededFor, evict_capacity-ends, evict_size-ends,
}

-- The invariant between two calls: the bookkeeping agrees, and the capacity is respected.
pub record IsValid {ℓ} {V : Type ℓ} (c : LruCache V) : Type ℓ where
  pub consistent : Consistent c
  pub nonneg : c.capacity < 2 ^ 63
  pub bounded : length c.eviction_list ≤ c.capacity

-- What `evictIfNeeded` does: it ends, drops entries from the back only, and leaves both limits
-- respected. First go the entries above the capacity, then those that the size limit asks for.
pub record Evicted {ℓ} {V : Type ℓ} (c c' : LruCache V) (by_count by_size : List (Entry V))
    : Type ℓ where
  pub dropped : Dropped c c' (by_size ++ by_count)
  pub valid : IsValid c'
  pub count : length by_count ≡ length c.eviction_list - c.capacity
  pub within : lt64 0 c.max_size ≡ true → over_size c' ≡ false
  pub unlimited : lt64 0 c.max_size ≡ false → by_size ≡ []
  pub needed : NeededFor c.max_size c'.eviction_list by_size

module _ {ℓ} {V : Type ℓ} where
  bounded-Dropped :
      (c c' : LruCache V) (dropped : List (Entry V))
      → Dropped c c' dropped
      → length c'.eviction_list + length dropped ≡ length c.eviction_list
  bounded-Dropped c c' dropped d =
      omega (arith, ap length d.kept, length-append c'.eviction_list dropped)

  pub evict_if_needed-ends :
      (c : LruCache V)
      → Consistent c
      → c.capacity < 2 ^ 63
      → (c' : LruCache V) × (by_count : List (Entry V)) × (by_size : List (Entry V))
        × (evict_if_needed c ≡ some c')
        × Evicted c c' by_count by_size
  unfolding evict_if_needed
  evict_if_needed-ends c v fits =
      let (m, first, ends, w, d, count) =
        evict_capacity-ends (length c.eviction_list + 1) c (omega arith) fits v in
      let left = bounded-Dropped c m first d in
      elim (Bool-cases (lt64 0 m.max_size)) [
        | inr free ↦ (
          m,
          first,
          [],
          rw (ends, evict_if_needed) (rw free),
          record {
            dropped = d;
            valid = record {
              consistent = w;
              nonneg = omega (arith, d.capacity);
              bounded = omega (arith, d.capacity, count, left);
            };
            count = count;
            within = λ h. ground (arith, d.max_size);
            unlimited = λ h. refl;
            needed = tt;
          },
        )
        | inl tight ↦
            let (c', second, ends', w', d', done, need) =
              evict_size-ends (length m.eviction_list + 1) m (omega arith) w in
            let left' = bounded-Dropped m c' second d' in
            (
              c',
              first,
              second,
              rw (ends, evict_if_needed) (rw tight ends'),
              record {
                dropped = Dropped-trans c m c' first second d d';
                valid = record {
                  consistent = w';
                  nonneg = omega (arith, d.capacity, d'.capacity);
                  bounded = omega (arith, d.capacity, d'.capacity, count, left, left');
                };
                count = count;
                within = λ h. done;
                unlimited = λ h. ground (arith, d.max_size);
                needed = subst (λ k. NeededFor k c'.eviction_list second) d.max_size need;
              },
            )
      ]
