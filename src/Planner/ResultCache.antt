-- ===== src/Planner/ResultCache.antt =====
-- `queryCache` of pkg/coordination/planner/cache.go. `time.Now()` is an argument, and a time is a number of nanoseconds. A
-- loop over the map visits its entries in their order; the goroutine that calls removeExpired every minute is any
-- sequence of calls.
use quidditch.Common.{
  ℕ, ◌+◌, String, Option, none, some, [], ◌∷◌, length, str_eq, ◌||◌, if◌then◌else◌, ltb, Map,
  lookup, insert, delete, lt64,
}

-- `cacheEntry`
pub record CacheEntry {ℓ} (V : Type ℓ) : Type ℓ where
  pub value : V
  pub expiration : ℕ

pub record ResultCache {ℓ} (V : Type ℓ) : Type ℓ where
  pub entries : Map (CacheEntry V)
  pub max_size : ℕ
  pub ttl : ℕ

module _ {ℓ} {V : Type ℓ} where
  abbrev pub new_result_cache : ℕ → ℕ → ResultCache V
  new_result_cache max_size ttl = record { entries = []; max_size = max_size; ttl = ttl }

  -- What a read gives of an entry.
  abbrev fresh_value : ℕ → Option (CacheEntry V) → Option V
  fresh_value now none = none
  fresh_value now (some e) = if ltb e.expiration now then none else some e.value

  abbrev pub get_result : ℕ → String → ResultCache V → Option V
  get_result now k c = fresh_value now (lookup k c.entries)

  -- The loop of `evictOldest`: the key and the time that it has chosen. The empty key is also the sign that none is chosen.
  unfoldable pub oldest_from : String → ℕ → Map (CacheEntry V) → String
  oldest_from k t [] = k
  oldest_from k t ((j, e) ∷ m) =
      let takes = str_eq k "" || ltb e.expiration t in
      oldest_from (if takes then j else k) (if takes then e.expiration else t) m

  abbrev pub evict_oldest : Map (CacheEntry V) → Map (CacheEntry V)
  evict_oldest m = let k = oldest_from "" 0 m in if str_eq k "" then m else delete k m

  -- `Set`; the room is made before it is known whether the key is there.
  abbrev pub set_result : ℕ → String → V → ResultCache V → ResultCache V
  set_result now k v c =
      let m = if lt64 (length c.entries) c.max_size then c.entries else evict_oldest c.entries in
      record c { entries = insert k (record { value = v; expiration = now + c.ttl }) m }

  abbrev pub delete_result : String → ResultCache V → ResultCache V
  delete_result k c = record c { entries = delete k c.entries }

  abbrev pub clear_results : ResultCache V → ResultCache V
  clear_results c = record c { entries = [] }

  abbrev pub size_of : ResultCache V → ℕ
  size_of c = length c.entries

  unfoldable pub unexpired : ℕ → Map (CacheEntry V) → Map (CacheEntry V)
  unexpired now [] = []
  unexpired now ((k, e) ∷ m) =
      let rest = unexpired now m in if ltb e.expiration now then rest else (k, e) ∷ rest

  abbrev pub remove_expired : ℕ → ResultCache V → ResultCache V
  remove_expired now c = record c { entries = unexpired now c.entries }
