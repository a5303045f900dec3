-- ===== src/Planner/CacheTests.antt =====
-- The cache of results of pkg/coordination/planner/cache.go at concrete inputs.
use quidditch.Common.{ℕ, ◌≡◌, refl, none, some, lookup, insert, delete, str_dec}
use quidditch.Planner.ResultCache.{
  ResultCache, new_result_cache, get_result, set_result, remove_expired, size_of, oldest_from,
  unexpired,
}

abbrev full : ResultCache ℕ
full = set_result 2 "b" 20 (set_result 1 "a" 10 (new_result_cache 2 100))

-- The oldest entry makes room.
oldest_leaves :
    (get_result 3 "a" (set_result 3 "c" 30 full) ≡ none)
    × (get_result 3 "b" (set_result 3 "c" 30 full) ≡ some 20)
unfolding lookup insert delete str_dec oldest_from
oldest_leaves = (refl, refl)

-- An update of a full cache evicts another entry, although it needs no room.
update_evicts : size_of (set_result 3 "b" 21 full) ≡ 1
unfolding lookup insert delete str_dec oldest_from
update_evicts = refl

-- A lone entry under the empty key is not evicted.
empty_key_stays :
    size_of {V = ℕ} (set_result 2 "a" 1 (set_result 1 "" 0 (new_result_cache 1 100))) ≡ 2
unfolding lookup insert delete str_dec oldest_from
empty_key_stays = refl

expired_leave : size_of (remove_expired 102 full) ≡ 1
unfolding lookup insert delete str_dec oldest_from unexpired
expired_leave = refl
