-- ===== src/Router/Documents.antt =====
-- `DocumentRouter` of pkg/coordination/router/router.go. A document id is the bytes of its text; an int32 is its bit
-- pattern. What a data node answers is of any type.
use Prim.Native.Nat.{bit_xor}
use quidditch.Common.{
  ℕ, ◌*◌, ◌%◌, ◌^◌, String, Bool, true, false, Option, none, some, List, [], ◌∷◌, str_eq, not,
  if◌then◌else◌, ◌==◌, Map, lookup,
}
use quidditch.Common.Results.{Result, ok, err, ◌>>=◌}
use quidditch.Json.{Fields}

abbrev pub DocId : Type 0
DocId = List ℕ

-- `ShardAllocation` and `ShardRouting`; a missing allocation is a nil pointer.
pub record Allocation : Type 0 where
  pub is_started : Bool
  pub node_id : String

pub record Shard : Type 0 where
  pub is_primary : Bool
  pub allocation : Option Allocation

-- The map from shard ids.
abbrev pub Routing : Type 0
Routing = List (ℕ × Shard)

unfoldable pub shard_at : ℕ → Routing → Option Shard
shard_at k [] = none
shard_at k ((j, s) ∷ rs) = let rest = shard_at k rs in if j == k then some s else rest

-- What the master answers for an index, `none` for an error: the number of its shards, and their routing.
pub record Master : Type 0 where
  pub number_of_shards : String → Option ℕ
  pub routing : String → Option Routing

-- A client of a data node: whether it is connected, whether a connection succeeds, and what the node answers, `none` for
-- an error.
pub record Client {ℓ} (R : Type ℓ) : Type ℓ where
  pub is_connected : Bool
  pub connects : Bool
  pub index_document : String → ℕ → DocId → Fields → Option R
  pub get_document : String → ℕ → DocId → Option R
  pub delete_document : String → ℕ → DocId → Option R

pub data RouteError : Type 0 where
  metadata_failed no_shards routing_failed : RouteError
  shard_not_found not_available not_primary no_node : ℕ → RouteError
  client_not_found connection_failed : String → RouteError
  call_failed : RouteError

-- FNV-1a on 32 bits.
abbrev fnv_byte : ℕ → ℕ → ℕ
fnv_byte h b = bit_xor h b * 16777619 % 2 ^ 32

unfoldable pub fnv : List ℕ → ℕ → ℕ
fnv [] h = h
fnv (b ∷ bs) h = fnv bs (fnv_byte h b)

-- `calculateShardID`
abbrev pub calculate_shard_id : DocId → ℕ → ℕ
calculate_shard_id id n = fnv id 2166136261 % n

-- `if !b { return nil, e }`
abbrev pub check : Bool → RouteError → Result {0, 0} RouteError Unit
check true e = ok tt
check false e = err e

-- `v, exists := ...; if !exists { return nil, e }`
abbrev pub required {ℓ} : {A : Type ℓ} → RouteError → Option A → Result RouteError A
required e none = err e
required e (some a) = ok a

-- The shard of a document: the start of all three methods.
abbrev pub locate : Master → String → DocId → Result RouteError (ℕ × Shard)
locate m index id = required metadata_failed (m.number_of_shards index) >>= λ n.
    check (not (n == 0)) no_shards >>= λ _.
    let sid = calculate_shard_id id n in
    required routing_failed (m.routing index) >>= λ rs.
    required (shard_not_found sid) (shard_at sid rs) >>= λ s. ok (sid, s)

module _ {ℓ} {R : Type ℓ} (clients : Map (Client R)) where
  abbrev pub connected : String → Client R → Result RouteError (Client R)
  connected nid c =
      check (if c.is_connected then true else c.connects) (connection_failed nid) >>= λ _. ok c

  -- The client for an allocation.
  abbrev pub client_for : ℕ → Allocation → Result RouteError (Client R)
  client_for sid a = check (not (str_eq a.node_id "")) (no_node sid) >>= λ _.
      required (client_not_found a.node_id) (lookup a.node_id clients) >>= λ c.
      connected a.node_id c

  -- Writing to a shard with an allocation. The message for a shard that is not available reads the state of the
  -- allocation, which panics, `none`, if there is none.
  unfoldable pub index_on :
      String → DocId → Fields → ℕ → Bool → Option Allocation → Option (Result RouteError R)
  index_on index id doc sid primary none = none
  index_on index id doc sid primary (some a) = some (
      check a.is_started (not_available sid) >>= λ _. check primary (not_primary sid) >>= λ _.
      client_for sid a >>= λ c. required call_failed (c.index_document index sid id doc))

  unfoldable pub get_on : String → DocId → ℕ → Option Allocation → Result RouteError R
  get_on index id sid none = err (not_available sid)
  get_on index id sid (some a) = check a.is_started (not_available sid) >>= λ _.
      client_for sid a >>= λ c. required call_failed (c.get_document index sid id)

  unfoldable pub delete_on : String → DocId → ℕ → Bool → Option Allocation → Result RouteError R
  delete_on index id sid primary none = err (not_available sid)
  delete_on index id sid primary (some a) = check a.is_started (not_available sid) >>= λ _.
      check primary (not_primary sid) >>= λ _.
      client_for sid a >>= λ c. required call_failed (c.delete_document index sid id)

  abbrev pub index_located :
      String → DocId → Fields → Result RouteError (ℕ × Shard) → Option (Result RouteError R)
  index_located index id doc (err e) = some (err e)
  index_located index id doc (ok (sid, s)) = index_on index id doc sid s.is_primary s.allocation

  -- `RouteIndexDocument`, `RouteGetDocument` and `RouteDeleteDocument`
  unfoldable pub route_index_document :
      Master → String → DocId → Fields → Option (Result RouteError R)
  route_index_document m index id doc = index_located index id doc (locate m index id)

  unfoldable pub route_get_document : Master → String → DocId → Result RouteError R
  route_get_document m index id = locate m index id >>= λ p. get_on index id p.0 p.1.allocation

  unfoldable pub route_delete_document : Master → String → DocId → Result RouteError R
  route_delete_document m index id =
      locate m index id >>= λ p. delete_on index id p.0 p.1.is_primary p.1.allocation
