-- ===== src/Cache/History.antt =====
-- Any sequence of calls on a cache of pkg/coordination/cache/lru_cache.go.
use quidditch.Common.{ℕ, ◌^◌, ◌<◌, ◌≡◌, refl, String, Option, none, some, List, [], ◌∷◌, ◌∙◌, All}
use quidditch.Cache.Lru.{
  LruCache, new_lru_cache, get, put, delete_key, clear, reset_stats, cleanup_expired,
}
use quidditch.Cache.Limits.{IsValid}
use quidditch.Cache.Calls.{
  new_lru_cache-IsValid, put-IsValid, get-IsValid, capacity-get, delete_key-IsValid,
  capacity-delete_key, clear-IsValid, stats-IsValid,
}
use quidditch.Cache.Cleanup.{cleanup_expired-fresh}

-- A call with the time at which it is made.
pub data Call {ℓ} (V : Type ℓ) : Type ℓ where
  get_call : ℕ → String → Call V
  put_call : ℕ → String → V → ℕ → Call V
  delete_call : String → Call V
  clear_call reset_call : Call V
  cleanup_call : ℕ → Call V

module _ {ℓ} {V : Type ℓ} where
  abbrev pub SizeFits : Call V → Type 0
  SizeFits (put_call now k x size) = size < 2 ^ 64
  SizeFits _ = Unit

  unfoldable pub call : Call V → LruCache V → Option (LruCache V)
  call (get_call now k) c = some (get now k c).0
  call (put_call now k x size) c = put now k x size c
  call (delete_call k) c = some (delete_key k c).0
  call clear_call c = some (clear c)
  call reset_call c = some (reset_stats c)
  call (cleanup_call now) c = some (cleanup_expired now c).0

  call-IsValid :
      (o : Call V) (c : LruCache V)
      → SizeFits o
      → IsValid c
      → (c' : LruCache V) × (call o c ≡ some c') × IsValid c' × (c'.capacity ≡ c.capacity)
  unfolding call reset_stats clear
  call-IsValid (get_call now k) c s v =
      ((get now k c).0, refl, get-IsValid c v now k, capacity-get c v now k)
  call-IsValid (put_call now k x size) c s v = put-IsValid c v now k x size s
  call-IsValid (delete_call k) c s v =
      ((delete_key k c).0, refl, delete_key-IsValid c v k, capacity-delete_key c v k)
  call-IsValid clear_call c s v = (clear c, refl, unfold clear in clear-IsValid c v, refl)
  call-IsValid reset_call c s v = (reset_stats c, refl, stats-IsValid c 0 0 0 0 v, refl)
  call-IsValid (cleanup_call now) c s v =
      let done = cleanup_expired-fresh now c v in ((cleanup_expired now c).0, refl, done.1, done.4)

  abbrev next_calls : Option (LruCache V) → (LruCache V → Option (LruCache V)) → Option (LruCache V)
  next_calls none k = none
  next_calls (some c) k = k c

  unfoldable pub run : List (Call V) → LruCache V → Option (LruCache V)
  run [] c = some c
  run (o ∷ os) c = next_calls (call o c) (λ c'. run os c')

  run_from-IsValid :
      (os : List (Call V)) (c : LruCache V)
      → All SizeFits os
      → IsValid c
      → (c' : LruCache V) × (run os c ≡ some c') × IsValid c' × (c'.capacity ≡ c.capacity)
  unfolding run
  run_from-IsValid [] c s v = (c, refl, v, refl)
  run_from-IsValid (o ∷ os) c s v =
      let (d, does, w, same) = call-IsValid o c s.0 v in
      let (c', ends, w', same') = run_from-IsValid os d s.1 w in
      (c', rw does ends, w', same' ∙ same)

  -- From a new cache of a capacity that is not negative every sequence of calls ends, and leaves a
  -- cache of that capacity with no more entries than it, no key twice, and `currentSize` the sum of the
  -- entries' sizes as an int64.
  pub run-IsValid :
      (capacity max_size ttl : ℕ) (os : List (Call V))
      → capacity < 2 ^ 63
      → All SizeFits os
      → (c : LruCache V) × (run os (new_lru_cache capacity max_size ttl) ≡ some c)
        × IsValid c
        × (c.capacity ≡ capacity)
  unfolding new_lru_cache
  run-IsValid capacity max_size ttl os h s =
      run_from-IsValid os (new_lru_cache capacity max_size ttl) s
        (unfold new_lru_cache in new_lru_cache-IsValid capacity max_size ttl h)
