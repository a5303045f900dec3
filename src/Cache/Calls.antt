-- ===== src/Cache/Calls.antt =====
-- The calls of pkg/coordination/cache/lru_cache.go one by one: their ends and the invariant.
use quidditch.Common.{
  ℕ, ◌+◌, ◌^◌, ◌<◌, ◌≡◌, inl, inr, refl, String, none, some, List, ◌∷◌, arith, add64, sub64,
  Bool-cases, Option-cases,
}
use quidditch.Cache.Lru.{
  Entry, LruCache, new_lru_cache, find, without, remove_element, push_new, refresh, expired, get,
  put, delete_key, clear,
}
use quidditch.Cache.Entries.{
  find-without_self, without-Distinct, without-SizesFit, total_size-without, length-without,
  find-own, find-size,
}
use quidditch.Cache.Evict.{Consistent, remove_element-Consistent}
use quidditch.Cache.Limits.{IsValid, Evicted, evict_if_needed-ends}

module _ {ℓ} {V : Type ℓ} where
  pub new_lru_cache-IsValid :
      (capacity max_size ttl : ℕ)
      → capacity < 2 ^ 63
      → IsValid (new_lru_cache {V = V} capacity max_size ttl)
  unfolding new_lru_cache
  new_lru_cache-IsValid capacity max_size ttl h = record {
    consistent = record { distinct = tt; sizes = tt; counted = refl };
    nonneg = h;
    bounded = omega arith;
  }

  -- The statistics do not matter.
  pub stats-IsValid :
      (c : LruCache V) (hits misses evictions expirations : ℕ)
      → IsValid c
      → IsValid (record c {
        hits = hits;
        misses = misses;
        evictions = evictions;
        expirations = expirations;
      })
  stats-IsValid c hits misses evictions expirations v = record {
    consistent = record {
      distinct = v.consistent.distinct;
      sizes = v.consistent.sizes;
      counted = v.consistent.counted;
    };
    nonneg = v.nonneg;
    bounded = v.bounded;
  }

  module _ (c : LruCache V) (v : IsValid c) where
    pub push_new-Consistent :
        (now : ℕ) (k : String) (x : V) (size : ℕ)
        → size < 2 ^ 64
        → find k c.eviction_list ≡ none
        → Consistent (push_new now k x size c)
    push_new-Consistent now k x size fits new = record {
      distinct = (new, v.consistent.distinct);
      sizes = (fits, v.consistent.sizes);
      counted = omega (arith, v.consistent.counted);
    }

    -- An entry in place of the one that its key finds, moved to the front.
    replaced-IsValid :
        (e e' : Entry V) (k : String) (t : ℕ)
        → find k c.eviction_list ≡ some e
        → e'.key ≡ e.key
        → e'.size < 2 ^ 64
        → t ≡ add64 (sub64 c.current_size e.size) e'.size
        → IsValid
            (record c { eviction_list = e' ∷ without e.key c.eviction_list; current_size = t })
    replaced-IsValid e e' k t at same fits total =
        let l = c.eviction_list in
        let at' = find-own k l e at in
        record {
          consistent = record {
            distinct = (
              rw same (find-without_self e.key l v.consistent.distinct),
              without-Distinct e.key l v.consistent.distinct,
            );
            sizes = (fits, without-SizesFit e.key l v.consistent.sizes);
            counted = omega (
              arith,
              total,
              v.consistent.counted,
              total_size-without e.key l e at',
              find-size k l e v.consistent.sizes at,
            );
          };
          nonneg = v.nonneg;
          bounded = omega (arith, v.bounded, length-without e.key l e at');
        }

    pub remove_element-IsValid :
        (e : Entry V) (k : String) → find k c.eviction_list ≡ some e → IsValid (remove_element c e)
    unfolding remove_element
    remove_element-IsValid e k at =
        let at' = find-own k c.eviction_list e at in
        record {
          consistent = unfold remove_element in remove_element-Consistent c e v.consistent at';
          nonneg = v.nonneg;
          bounded = omega (arith, v.bounded, length-without e.key c.eviction_list e at');
        }

    -- On a cache that keeps the invariant, `Put` of a size below 2 ^ 64 under a key that is not there
    -- ends: the new entry goes to the front, `evictIfNeeded` drops entries from the back only, first
    -- while there are more than the capacity and then while the total is above a positive maximum and
    -- entries are left, drops no entry that it need not drop, and leaves a cache within both limits.
    pub put-new :
        (now : ℕ) (k : String) (x : V) (size : ℕ)
        → size < 2 ^ 64
        → find k c.eviction_list ≡ none
        → (c' : LruCache V) × (by_count : List (Entry V)) × (by_size : List (Entry V)) × (put now k
              x size c
            ≡ some c')
          × Evicted (push_new now k x size c) c' by_count by_size
    unfolding put
    put-new now k x size fits new =
        let (c', by_count, by_size, ends, e) =
          evict_if_needed-ends (push_new now k x size c) (push_new-Consistent now k x size fits new)
            v.nonneg in
        (c', by_count, by_size, rw (new, put) ends, e)

    pub refresh-IsValid :
        (now : ℕ) (x : V) (size : ℕ) (k : String) (e : Entry V)
        → size < 2 ^ 64
        → find k c.eviction_list ≡ some e
        → IsValid (refresh now x size e c)
    refresh-IsValid now x size k e fits at =
        let e' : Entry V = record e {
          value = x;
          size = size;
          expires_at = now + c.ttl;
          accessed_at = now;
        } in
        replaced-IsValid e e' k _ at refl fits refl

    pub put-IsValid :
        (now : ℕ) (k : String) (x : V) (size : ℕ)
        → size < 2 ^ 64
        → (c' : LruCache V) × (put now k x size c ≡ some c')
          × IsValid c'
          × (c'.capacity ≡ c.capacity)
    unfolding put
    put-IsValid now k x size fits = elim (Option-cases (find k c.eviction_list)) [
      | inl new ↦
          let (c', by_count, by_size, ends, e) = put-new now k x size fits new in
          (c', unfold put in ends, e.valid, e.dropped.capacity)
      | inr (e, at) ↦
          (refresh now x size e c, rw (at, put), refresh-IsValid now x size k e fits at, refl)
    ]

    pub get-IsValid : (now : ℕ) (k : String) → IsValid (get now k c).0
    unfolding get
    get-IsValid now k = elim (Option-cases (find k c.eviction_list)) [
      | inl gone ↦
          rw (gone, get) (stats-IsValid c c.hits (add64 c.misses 1) c.evictions c.expirations v)
      | inr (e, at) ↦ elim (Bool-cases (expired now e)) [
        | inl old ↦
            let d = remove_element c e in
            rw (at, get)
              (rw old (
                stats-IsValid d d.hits (add64 c.misses 1) d.evictions (add64 c.expirations 1)
                  (remove_element-IsValid e k at)))
        | inr fresh ↦
            rw (at, get)
              (rw fresh (
                let d : LruCache V = record c {
                  eviction_list = record e { accessed_at = now } ∷ without e.key c.eviction_list;
                } in
                let w =
                  replaced-IsValid e (record e { accessed_at = now }) k c.current_size at refl
                    (find-size k c.eviction_list e v.consistent.sizes at)
                    (omega (
                      arith,
                      v.consistent.counted,
                      find-size k c.eviction_list e v.consistent.sizes at,
                    )) in
                stats-IsValid d (add64 c.hits 1) d.misses d.evictions d.expirations w))
      ]
    ]

    pub capacity-get : (now : ℕ) (k : String) → (get now k c).0.capacity ≡ c.capacity
    unfolding get remove_element
    capacity-get now k = ground arith

    pub capacity-delete_key : (k : String) → (delete_key k c).0.capacity ≡ c.capacity
    unfolding delete_key remove_element
    capacity-delete_key k = ground arith

    pub delete_key-IsValid : (k : String) → IsValid (delete_key k c).0
    unfolding delete_key
    delete_key-IsValid k = elim (Option-cases (find k c.eviction_list)) [
      | inl gone ↦ rw (gone, delete_key) v
      | inr (e, at) ↦ rw (at, delete_key) (remove_element-IsValid e k at)
    ]

    pub clear-IsValid : IsValid (clear c)
    unfolding clear
    clear-IsValid = record {
      consistent = record { distinct = tt; sizes = tt; counted = refl };
      nonneg = v.nonneg;
      bounded = omega arith;
    }
