-- ===== src/Cache/Collisions.antt =====
-- Requests that share a key in the plan cache of pkg/coordination/cache/query_cache.go.
use mathlib.Core.Path.{subst}
use mathlib.Core.Option
use quidditch.Common.{
  ℕ, ◌+◌, ◌<◌, ◌≤◌, ◌≡◌, sym, ap, ◌∙◌, String, true, false, Option, some, List, lt64, arith,
}
use quidditch.Json.{Json, Fields, or_zero}
use quidditch.Query.Ast.{SearchRequest, Query}
use quidditch.Cache.Lru.{LruCache, get, put}
use quidditch.Cache.Limits.{IsValid}
use quidditch.Cache.Reads.{get-put_self}
use quidditch.Cache.Plans.{
  normalized, key_data, LogicalEntry, QueryCache, Keys, with_logical, put_in, kept, logical_key,
  logical_size, get_logical_plan, put_logical_plan,
}

-- A request with another query, _source and aggs.
abbrev pub altered : SearchRequest → Option Query → Option Json → Option Fields → SearchRequest
altered r q s a = record r { parsed_query = q; source = s; aggs = a }

key_data-altered :
    (shown : Query → String) (i : String) (r : SearchRequest) (shards : List ℕ) (q : Option Query)
    (s : Option Json) (a : Option Fields)
    → normalized shown q ≡ normalized shown r.parsed_query
    → key_data shown i (altered r q s a) shards ≡ key_data shown i r shards
key_data-altered shown i r shards q s a same =
    ap (λ n. record (key_data shown i r shards) { query = n }) same

logical_key-digest {ℓ} :
    {L : Type ℓ} (keys : Keys L) (now : ℕ) (i : String) (r : SearchRequest) (shards : List ℕ)
    (k : String)
    → keys.digest (key_data keys.shown i r shards) ≡ some k
    → logical_key keys now i r shards ≡ k
logical_key-digest keys now i r shards k encoded = ap (or_zero (keys.moment i now)) encoded

module _ {ℓ κ} {L : Type ℓ} {P : Type κ} (keys : Keys L) (bytes : String → ℕ) where
  put_logical_plan-some :
      (qc : QueryCache L P) (c c' : LruCache (LogicalEntry L)) (now : ℕ) (i : String)
      (r : SearchRequest) (shards : List ℕ) (p : L)
      → qc.logical ≡ some c
      → put now
          (logical_key keys now i r shards)
          (record { plan = p; index_name = i; shard_ids = shards })
          (logical_size bytes i shards)
          c
        ≡ some c'
      → put_logical_plan keys bytes now i r shards p qc ≡ some (record qc { logical = some c' })
  unfolding put_logical_plan
  put_logical_plan-some qc c c' now i r shards p enabled stored = ap (with_logical qc) (
      ap
        (put_in now (logical_key keys now i r shards)
          (record { plan = p; index_name = i; shard_ids = shards }) (logical_size bytes i shards))
        enabled
      ∙ ap kept stored)

  get_logical_plan-some :
      (qc : QueryCache L P) (c' : LruCache (LogicalEntry L)) (now : ℕ) (i : String)
      (r : SearchRequest) (shards : List ℕ) (e : LogicalEntry L)
      → (get now (logical_key keys now i r shards) c').1 ≡ some e
      → (get_logical_plan keys now i r shards (record qc { logical = some c' })).1 ≡ some e.plan
  unfolding get_logical_plan
  get_logical_plan-some qc c' now i r shards e read = ap (Option.map (λ e. e.plan)) read

  -- A plan that is stored for a request is found, until it expires, for every request that differs in _source, in aggs, and
  -- in what the normalization of its query drops, if the cache keeps its invariant, has a positive capacity and a maximum
  -- that is not below the size of the entry, and the encoding of the key does not fail.
  pub get_logical_plan-put :
      (qc : QueryCache L P) (c : LruCache (LogicalEntry L)) (now later : ℕ) (i : String)
      (r : SearchRequest) (shards : List ℕ) (p : L) (k : String) (q : Option Query)
      (s : Option Json) (a : Option Fields)
      → qc.logical ≡ some c
      → IsValid c
      → 0 < c.capacity
      → (lt64 0 c.max_size ≡ true → lt64 c.max_size (logical_size bytes i shards) ≡ false)
      → later ≤ now + c.ttl
      → keys.digest (key_data keys.shown i r shards) ≡ some k
      → normalized keys.shown q ≡ normalized keys.shown r.parsed_query
      → (qc' : QueryCache L P) × (put_logical_plan keys bytes now i r shards p qc ≡ some qc')
        × ((get_logical_plan keys later i (altered r q s a) shards qc').1 ≡ some p)
  get_logical_plan-put qc c now later i r shards p k q s a enabled v room fits soon encoded same =
      let e : LogicalEntry L = record { plan = p; index_name = i; shard_ids = shards } in
      let (c', stored, read) =
        get-put_self c now later k e (logical_size bytes i shards) v (omega arith) room
          (λ h. ground (arith, fits h)) soon in
      let encoded' : keys.digest (key_data keys.shown i (altered r q s a) shards) ≡ some k =
        ap keys.digest (key_data-altered keys.shown i r shards q s a same) ∙ encoded in
      let key = logical_key-digest keys now i r shards k encoded in
      let key' = logical_key-digest keys later i (altered r q s a) shards k encoded' in
      (
        record qc { logical = some c' },
        put_logical_plan-some qc c c' now i r shards p enabled
            (subst (λ x. put now x e (logical_size bytes i shards) c ≡ some c') (sym key) stored),
        get_logical_plan-some qc c' later i (altered r q s a) shards e
            (subst (λ x. (get later x c').1 ≡ some e) (sym key') read),
      )
