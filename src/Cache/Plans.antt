-- ===== src/Cache/Plans.antt =====
-- `QueryCache` of pkg/coordination/cache/query_cache.go. Metrics are left out. A key is made of the encoded fields
-- that it names: json.Marshal, SHA-256 and the printing of values are parameters.
use mathlib.Core.Option
use quidditch.Common.{
  ℕ, ◌+◌, ◌*◌, String, Bool, true, Option, none, some, List, length, if◌then◌else◌, wrap64,
}
use quidditch.Json.{Json, null, num, str, arr, obj, Items, stop, item, Fields, end, entry, or_zero}
use quidditch.Query.Ast.{
  SearchRequest, Query, Queries, match, term, range, bool_query, match_all, prefix, wildcard, fuzzy,
  exists, nil, cons,
}
use quidditch.Cache.Lru.{LruCache, new_lru_cache, get, put, clear, cleanup_expired}

-- `keyData` of `generateLogicalPlanKey`
pub record KeyData : Type 0 where
  pub index : String
  pub query : Json
  pub aggregations : Option Fields
  pub size : ℕ
  pub from : ℕ
  pub sort : List Fields
  pub shard_ids : List ℕ

-- A map with an entry for the type.
abbrev typed : String → Fields → Json
typed t fs = obj (entry "type" (str t) fs)

abbrev field_value : String → String → Json → Json
field_value t f v = typed t (entry "field" (str f) (entry "value" v end))

-- A nil slice of clauses is null.
abbrev list_of : Items → Json
list_of stop = null
list_of (item x xs) = arr (item x xs)

-- `shown` is the "%v" of a query.
module _ (shown : Query → String) where
  unfoldable mutual
    pub normalize_query : Query → Json
    normalize_query (term f v b) = field_value "term" f v
    normalize_query (match f q op b a) =
        typed "match" (entry "field" (str f) (entry "query" (str q) end))
    normalize_query (range f gt gte lt lte b) = typed "range" (
        entry "field" (str f)
          (entry "gte" gte (entry "gt" gt (entry "lte" lte (entry "lt" lt end)))))
    normalize_query (bool_query m sh mn f n s) = typed "bool" (
        entry "must" (list_of (normalize_list m)) (
          entry "should" (list_of (normalize_list sh)) (
            entry "must_not" (list_of (normalize_list mn)) (
              entry "filter" (list_of (normalize_list f))
                (entry "minimum_should_match" (num n) end)))))
    normalize_query (match_all b) = typed "match_all" end
    normalize_query (prefix f v) = field_value "prefix" f (str v)
    normalize_query (wildcard f v) = field_value "wildcard" f (str v)
    normalize_query (fuzzy f v z) =
        typed "fuzzy"
          (entry "field" (str f) (entry "value" (str v) (entry "fuzziness" (str z) end)))
    normalize_query (exists f) = typed "exists" (entry "field" (str f) end)
    normalize_query q = typed "unknown" (entry "string" (str (shown q)) end)

    pub normalize_list : Queries → Items
    normalize_list nil = stop
    normalize_list (cons q qs) = item (normalize_query q) (normalize_list qs)

  abbrev pub normalized : Option Query → Json
  normalized none = null
  normalized (some q) = normalize_query q

  abbrev pub key_data : String → SearchRequest → List ℕ → KeyData
  key_data i r shards = record {
    index = i;
    query = normalized r.parsed_query;
    aggregations = r.aggregations;
    size = r.size;
    from = r.from;
    sort = r.sort;
    shard_ids = shards;
  }

-- `LogicalPlanCacheEntry` and `PhysicalPlanCacheEntry`
pub record LogicalEntry {ℓ} (P : Type ℓ) : Type ℓ where
  pub plan : P
  pub index_name : String
  pub shard_ids : List ℕ

pub record PhysicalEntry {ℓ} (P : Type ℓ) : Type ℓ where
  pub plan : P
  pub index_name : String

-- A cache that is not enabled is nil.
pub record QueryCache {ℓ κ} (L : Type ℓ) (P : Type κ) : Type (ℓ ⊔ κ) where
  pub logical : Option (LruCache (LogicalEntry L))
  pub physical : Option (LruCache (PhysicalEntry P))

-- `QueryCacheConfig`, for one of the caches: entries, bytes and the time to live.
pub record Config : Type 0 where
  pub size : ℕ
  pub max_bytes : ℕ
  pub ttl : ℕ
  pub is_enabled : Bool

-- `DefaultQueryCacheConfig`, which is the same for both.
abbrev pub default_config : Config
default_config = record {
  size = 1000;
  max_bytes = 100 * 1024 * 1024;
  ttl = 5 * 60 * 1000000000;
  is_enabled = true;
}

abbrev pub new_cache {ℓ} : {V : Type ℓ} → Config → Option (LruCache V)
new_cache c = if c.is_enabled then some (new_lru_cache c.size c.max_bytes c.ttl) else none

-- The SHA-256 keys: `digest` gives none where the encoding of a key fails, and `moment` is the key of the fallback.
pub record Keys {ℓ} (L : Type ℓ) : Type ℓ where
  pub shown : Query → String
  pub digest : KeyData → Option String
  pub moment : String → ℕ → String
  pub plan_key : String → L → String

abbrev pub logical_key {ℓ} : {L : Type ℓ} → Keys L → ℕ → String → SearchRequest → List ℕ → String
logical_key keys now i r shards =
    or_zero (keys.moment i now) (keys.digest (key_data keys.shown i r shards))

-- The estimated sizes of entries; `bytes` is the length of a text.
abbrev pub logical_size : (String → ℕ) → String → List ℕ → ℕ
logical_size bytes i shards = wrap64 (1000 + bytes i + length shards * 4)

abbrev pub physical_size : (String → ℕ) → String → ℕ
physical_size bytes i = wrap64 (2000 + bytes i)

-- Reading and writing a cache that may be nil.
module _ {ℓ} {V : Type ℓ} where
  abbrev pub found {κ} :
      {A : Type κ} → (V → A) → LruCache V × Option V → Option (LruCache V) × Option A
  found plan (c, v) = (some c, Option.map plan v)

  abbrev pub read_in {κ} :
      {A : Type κ} → (V → A) → ℕ → String → Option (LruCache V) → Option (LruCache V) × Option A
  read_in plan now k none = (none, none)
  read_in plan now k (some c) = found plan (get now k c)

  abbrev pub kept : Option (LruCache V) → Option (Option (LruCache V))
  kept none = none
  kept (some c) = some (some c)

  -- `none` is a call that does not end.
  abbrev pub put_in : ℕ → String → V → ℕ → Option (LruCache V) → Option (Option (LruCache V))
  put_in now k v size none = some none
  put_in now k v size (some c) = kept (put now k v size c)

module _ {ℓ κ} {L : Type ℓ} {P : Type κ} where
  abbrev pub new_query_cache : Config → Config → QueryCache L P
  new_query_cache l p = record { logical = new_cache l; physical = new_cache p }

  abbrev pub with_logical :
      QueryCache L P → Option (Option (LruCache (LogicalEntry L))) → Option (QueryCache L P)
  with_logical qc none = none
  with_logical qc (some c) = some (record qc { logical = c })

  abbrev with_physical :
      QueryCache L P → Option (Option (LruCache (PhysicalEntry P))) → Option (QueryCache L P)
  with_physical qc none = none
  with_physical qc (some c) = some (record qc { physical = c })

  module _ (keys : Keys L) where
    unfoldable pub get_logical_plan :
        ℕ → String → SearchRequest → List ℕ → QueryCache L P → QueryCache L P × Option L
    get_logical_plan now i r shards qc =
        let (c, p) = read_in (λ e. e.plan) now (logical_key keys now i r shards) qc.logical in
        (record qc { logical = c }, p)

    unfoldable pub put_logical_plan :
        (String → ℕ)
        → ℕ
        → String
        → SearchRequest
        → List ℕ
        → L
        → QueryCache L P
        → Option (QueryCache L P)
    put_logical_plan bytes now i r shards p qc = with_logical qc (
        put_in now (logical_key keys now i r shards)
          (record { plan = p; index_name = i; shard_ids = shards }) (logical_size bytes i shards)
          qc.logical)

    unfoldable pub get_physical_plan : ℕ → String → L → QueryCache L P → QueryCache L P × Option P
    get_physical_plan now i l qc =
        let (c, p) = read_in (λ e. e.plan) now (keys.plan_key i l) qc.physical in
        (record qc { physical = c }, p)

    unfoldable pub put_physical_plan :
        (String → ℕ) → ℕ → String → L → P → QueryCache L P → Option (QueryCache L P)
    put_physical_plan bytes now i l p qc = with_physical qc (
        put_in now (keys.plan_key i l) (record { plan = p; index_name = i }) (physical_size bytes i)
          qc.physical)

  abbrev on_both :
      (LruCache (LogicalEntry L) → LruCache (LogicalEntry L))
      → (LruCache (PhysicalEntry P) → LruCache (PhysicalEntry P))
      → QueryCache L P
      → QueryCache L P
  on_both f g qc = record {
    logical = elim qc.logical [ none ↦ none | some c ↦ some (f c) ];
    physical = elim qc.physical [ none ↦ none | some c ↦ some (g c) ];
  }

  -- `Clear`, and `InvalidateIndex`, which clears the plans of every index.
  unfoldable pub clear_plans : QueryCache L P → QueryCache L P
  clear_plans qc = on_both clear clear qc

  unfoldable pub invalidate_index : String → QueryCache L P → QueryCache L P
  invalidate_index i qc = on_both clear clear qc

  unfoldable pub cleanup_plans : ℕ → QueryCache L P → QueryCache L P
  cleanup_plans now qc =
      on_both (λ c. (cleanup_expired now c).0) (λ c. (cleanup_expired now c).0) qc
