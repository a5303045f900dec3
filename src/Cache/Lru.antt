-- ===== src/Cache/Lru.antt =====
-- pkg/coordination/cache/lru_cache.go. The map `entries` and the list `evictionList` hold the same
-- elements, always written together, so one list of entries stands for both, most recent first; a
-- read of the map is a search in it by key. `time.Now()` is an argument; a time is a number of
-- nanoseconds. `hits`, `misses` and the like are `int64`, as are sizes.
use quidditch.Common.{
  ℕ, zero, suc, ◌+◌, ◌^◌, String, Bool, true, false, ◌&&◌, Option, none, some, List, [], ◌∷◌, ltb,
  if◌then◌else◌, str_dec, ite, length, reverse, add64, sub64, lt64,
}

pub record Entry {ℓ} (V : Type ℓ) : Type ℓ where
  pub key : String
  pub value : V
  pub expires_at : ℕ
  pub accessed_at : ℕ
  pub created_at : ℕ
  pub size : ℕ  -- int64

pub record LruCache {ℓ} (V : Type ℓ) : Type ℓ where
  pub capacity : ℕ  -- int
  pub max_size : ℕ  -- int64
  pub ttl : ℕ
  pub eviction_list : List (Entry V)
  pub current_size : ℕ  -- int64
  pub hits : ℕ  -- int64
  pub misses : ℕ  -- int64
  pub evictions : ℕ  -- int64
  pub expirations : ℕ  -- int64

module _ {ℓ} {V : Type ℓ} where
  unfoldable pub new_lru_cache : ℕ → ℕ → ℕ → LruCache V
  new_lru_cache capacity max_size ttl = record {
    capacity = capacity;
    max_size = max_size;
    ttl = ttl;
    eviction_list = [];
    current_size = 0;
    hits = 0;
    misses = 0;
    evictions = 0;
    expirations = 0;
  }

  -- `c.entries[key]`
  unfoldable pub find : String → List (Entry V) → Option (Entry V)
  find k [] = none
  find k (e ∷ l) = ite (str_dec e.key k) (some e) (find k l)

  -- `c.evictionList.Remove(elem)` for the element of a key.
  unfoldable pub without : String → List (Entry V) → List (Entry V)
  without k [] = []
  without k (e ∷ l) = ite (str_dec e.key k) l (e ∷ without k l)

  -- The element leaves the list and the map, and its size the total.
  unfoldable pub remove_element : LruCache V → Entry V → LruCache V
  remove_element c e = record c {
    eviction_list = without e.key c.eviction_list;
    current_size = sub64 c.current_size e.size;
  }

  -- `c.evictionList.Back()`
  unfoldable pub back : List (Entry V) → Option (Entry V)
  back [] = none
  back (e ∷ []) = some e
  back (e ∷ f ∷ l) = back (f ∷ l)

  unfoldable pub evict_oldest : LruCache V → LruCache V
  evict_oldest c = elim (back c.eviction_list) [
    | none ↦ c
    | some e ↦ let c' = remove_element c e in record c' { evictions = add64 c.evictions 1 }
  ]

  -- `len(c.entries) > c.capacity`; a negative capacity is below every length.
  abbrev pub over_capacity : LruCache V → Bool
  over_capacity c =
      if ltb c.capacity (2 ^ 63) then ltb c.capacity (length c.eviction_list) else true

  -- `c.currentSize > c.maxSize && c.evictionList.Len() > 0`
  abbrev pub over_size : LruCache V → Bool
  over_size c = lt64 c.max_size c.current_size && ltb 0 (length c.eviction_list)

  -- The two loops of `evictIfNeeded`, on fuel; `none` is a loop that has not ended.
  unfoldable pub evict_capacity : ℕ → LruCache V → Option (LruCache V)
  evict_capacity zero c = none
  evict_capacity (suc fuel) c =
      let rest = evict_capacity fuel (evict_oldest c) in if over_capacity c then rest else some c

  unfoldable pub evict_size : ℕ → LruCache V → Option (LruCache V)
  evict_size zero c = none
  evict_size (suc fuel) c =
      let rest = evict_size fuel (evict_oldest c) in if over_size c then rest else some c

  abbrev pub or_stuck {κ} : {A : Type κ} → Option (LruCache V) → (LruCache V → Option A) → Option A
  or_stuck none k = none
  or_stuck (some c) k = k c

  -- Each loop runs at most once for each entry, and once more to see its test fail.
  unfoldable pub evict_if_needed : LruCache V → Option (LruCache V)
  evict_if_needed c =
      or_stuck (evict_capacity (length c.eviction_list + 1) c)
        (λ c'. if lt64 0 c'.max_size then evict_size (length c'.eviction_list + 1) c' else some c')

  -- `time.Now().After(entry.ExpiresAt)`
  abbrev pub expired : ℕ → Entry V → Bool
  expired now e = ltb e.expires_at now

  unfoldable pub get : ℕ → String → LruCache V → LruCache V × Option V
  get now k c = elim (find k c.eviction_list) [
    | none ↦ (record c { misses = add64 c.misses 1 }, none)
    | some e ↦
        if expired now e
        then (
          record (remove_element c e) {
            expirations = add64 c.expirations 1;
            misses = add64 c.misses 1;
          },
          none,
        )
        else (
          record c {
            eviction_list = record e { accessed_at = now } ∷ without e.key c.eviction_list;
            hits = add64 c.hits 1;
          },
          some e.value,
        )
  ]

  -- The entry that `Put` pushes to the front for a new key.
  abbrev pub push_new : ℕ → String → V → ℕ → LruCache V → LruCache V
  push_new now k v size c = record c {
    eviction_list =
        record {
          key = k;
          value = v;
          expires_at = now + c.ttl;
          accessed_at = now;
          created_at = now;
          size = size;
        }
        ∷ c.eviction_list;
    current_size = add64 c.current_size size;
  }

  -- The entry of a key that is there, with the new value, moved to the front.
  abbrev pub refresh : ℕ → V → ℕ → Entry V → LruCache V → LruCache V
  refresh now v size e c = record c {
    eviction_list =
        record e { value = v; size = size; expires_at = now + c.ttl; accessed_at = now }
        ∷ without e.key c.eviction_list;
    current_size = add64 (sub64 c.current_size e.size) size;
  }

  -- `none`: `evictIfNeeded` does not end.
  unfoldable pub put : ℕ → String → V → ℕ → LruCache V → Option (LruCache V)
  put now k v size c = elim (find k c.eviction_list) [
    | some e ↦ some (refresh now v size e c)
    | none ↦ evict_if_needed (push_new now k v size c)
  ]

  -- Named `Delete` in the source.
  unfoldable pub delete_key : String → LruCache V → LruCache V × Bool
  delete_key k c = elim (find k c.eviction_list) [
    | none ↦ (c, false)
    | some e ↦ (remove_element c e, true)
  ]

  unfoldable pub clear : LruCache V → LruCache V
  clear c = record c { eviction_list = []; current_size = 0 }

  unfoldable pub reset_stats : LruCache V → LruCache V
  reset_stats c = record c { hits = 0; misses = 0; evictions = 0; expirations = 0 }

  -- The loop of `CleanupExpired`, from the back of the list: `elems` are the elements from the back
  -- on, as `Prev` walks them.
  unfoldable pub cleanup_from : ℕ → List (Entry V) → LruCache V → ℕ → LruCache V × ℕ
  cleanup_from now [] c removed = (c, removed)
  cleanup_from now (e ∷ elems) c removed =
      cleanup_from now elems
        (if expired now e
          then record (remove_element c e) { expirations = add64 c.expirations 1 }
          else c)
        (if expired now e then removed + 1 else removed)

  unfoldable pub cleanup_expired : ℕ → LruCache V → LruCache V × ℕ
  cleanup_expired now c = cleanup_from now (reverse c.eviction_list) c 0
