-- ===== src/Cache/Tests.antt =====
-- A cache of two entries, and the theorems of pkg/coordination/cache/lru_cache.go at it.
use quidditch.Common.{
  ℕ, ◌+◌, ◌-◌, ◌^◌, ◌≡◌, ◌≢◌, refl, String, true, none, some, List, [], ◌∷◌, arith, str_dec, length,
  lt64, wrap64,
}
use quidditch.Cache.Lru.{
  Entry, LruCache, new_lru_cache, find, without, back, remove_element, evict_oldest, over_size,
  evict_capacity, evict_size, evict_if_needed, push_new, get, put, delete_key, clear, reset_stats,
  cleanup_from, cleanup_expired,
}
use quidditch.Cache.Limits.{IsValid, Evicted}
use quidditch.Cache.Calls.{put-new}
use quidditch.Cache.Cleanup.{fresh, cleanup_expired-fresh}
use quidditch.Cache.Reads.{get-put_self, put_update_exceeds}
use quidditch.Cache.History.{
  Call, call, get_call, put_call, delete_call, cleanup_call, run, run-IsValid,
}

program : Unit {0}
unfolding new_lru_cache find without back remove_element evict_oldest evict_capacity evict_size
    evict_if_needed get put delete_key clear reset_stats cleanup_from cleanup_expired run call
    str_dec
program = tt

abbrev entry : String → ℕ → ℕ → ℕ → Entry ℕ
entry k v size at = record {
  key = k;
  value = v;
  expires_at = at + 10;
  accessed_at = at;
  created_at = at;
  size = size;
}

abbrev two : LruCache ℕ
two = record {
  capacity = 2;
  max_size = 100;
  ttl = 10;
  eviction_list = entry "b" 20 30 5 ∷ entry "a" 10 40 3 ∷ [];
  current_size = 70;
  hits = 0;
  misses = 0;
  evictions = 0;
  expirations = 0;
}

two-IsValid : IsValid two
unfolding program
two-IsValid = record {
  consistent = record { distinct = (refl, (refl, tt)); sizes = omega arith; counted = refl };
  nonneg = omega arith;
  bounded = omega arith;
}

-- Both limits at work: one entry goes for the count, one for the size.
put_evicts :
    put 6 "c" 30 80 two
    ≡ some (record two { eviction_list = entry "c" 30 80 6 ∷ []; current_size = 80; evictions = 2 })
unfolding program
put_evicts = refl

missing : find "c" two.eviction_list ≡ none
unfolding program
missing = refl

put-new_example :
    (c' : LruCache ℕ) × (by_count : List (Entry ℕ)) × (by_size : List (Entry ℕ)) × (put 6 "c" 30 80
        two
      ≡ some c')
    × Evicted (push_new 6 "c" 30 80 two) c' by_count by_size
put-new_example = put-new two two-IsValid 6 "c" 30 80 (omega arith) missing

get-put_self_example :
    (c' : LruCache ℕ) × (put 6 "c" 30 80 two ≡ some c') × ((get 16 "c" c').1 ≡ some 30)
get-put_self_example =
    get-put_self two 6 16 "c" 30 80 two-IsValid (omega arith) (omega arith) (λ h. refl)
      (omega arith)

there : find "a" two.eviction_list ≡ some (entry "a" 10 40 3)
unfolding program
there = refl

heavy : lt64 100 (wrap64 (30 + 0 + 90)) ≡ true
heavy = refl

put_update_exceeds_example :
    (c' : LruCache ℕ) × (put 6 "a" 11 90 two ≡ some c')
    × (over_size c' ≡ true)
    × (length c'.eviction_list ≡ length two.eviction_list)
    × (c'.evictions ≡ two.evictions)
    × ((j : String) → j ≢ "a" → find j c'.eviction_list ≡ find j two.eviction_list)
unfolding program
put_update_exceeds_example =
    put_update_exceeds two 6 "a" 11 90 (entry "a" 10 40 3) two-IsValid refl refl

abbrev broken : LruCache ℕ
broken = new_lru_cache (2 ^ 64 - 1) 100 10

cleanup_expired-fresh_example :
    let (c', removed) = cleanup_expired 14 two in
    (c'.eviction_list ≡ fresh 14 two.eviction_list)
    × IsValid c'
    × (removed + length c'.eviction_list ≡ length two.eviction_list)
    × (wrap64 c'.expirations ≡ wrap64 (two.expirations + removed))
    × (c'.capacity ≡ two.capacity)
cleanup_expired-fresh_example = cleanup_expired-fresh 14 two two-IsValid

abbrev calls : List (Call ℕ)
calls =
    put_call 3 "a" 10 40
    ∷ put_call 5 "b" 20 30
    ∷ get_call 6 "a"
    ∷ put_call 7 "c" 30 10
    ∷ get_call 8 "b"
    ∷ cleanup_call 14
    ∷ delete_call "c"
    ∷ []

run-IsValid_example :
    (c : LruCache ℕ) × (run calls (new_lru_cache 2 100 10) ≡ some c) × IsValid c × (c.capacity ≡ 2)
run-IsValid_example = run-IsValid 2 100 10 calls (omega arith) (omega arith)
