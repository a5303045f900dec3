-- ===== src/Router/Tests.antt =====
-- The router of pkg/coordination/router at concrete inputs.
use quidditch.Common.{ℕ, ◌≡◌, refl, none, some, [], ◌∷◌, true, false, Map, lookup, str_dec}
use quidditch.Common.Results.{err}
use quidditch.Json.{num, Fields, entry, end}
use quidditch.Router.Documents.{
  DocId, Allocation, Shard, Master, Client, not_available, fnv, shard_at, index_on, delete_on,
  route_index_document, route_delete_document,
}
use quidditch.Router.Consistency.{IsShardOf, Serves, route_index_document-same_client}

-- "foobar"; its hash is in the published test vectors of FNV.
abbrev foobar : DocId
foobar = 102 ∷ 111 ∷ 111 ∷ 98 ∷ 97 ∷ 114 ∷ []

fnv-foobar : fnv foobar 2166136261 ≡ 3214735720
unfolding fnv
fnv-foobar = refl

abbrev node : Client ℕ
node = record {
  is_connected = false;
  connects = true;
  index_document = λ i sid id doc. some sid;
  get_document = λ i sid id. some 7;
  delete_document = λ i sid id. none;
}

abbrev held : Allocation
held = record { is_started = true; node_id = "a" }

abbrev primary : Shard
primary = record { is_primary = true; allocation = some held }

abbrev master : Master
master = record {
  number_of_shards = λ i. some 5;
  routing = λ i. some ((1, record { is_primary = false; allocation = none }) ∷ (0, primary) ∷ []);
}

abbrev nodes : Map (Client ℕ)
nodes = ("a", node) ∷ []

abbrev doc : Fields
doc = entry "price" (num 3) end

route_index_document-same_client_example :
    (p : ℕ × Shard) × (a : Allocation) × (c : Client ℕ) × IsShardOf master "books" foobar p
    × (p.1.allocation ≡ some a)
    × (a.is_started ≡ true)
    × (p.1.is_primary ≡ true)
    × (lookup a.node_id nodes ≡ some c)
    × Serves nodes "books" foobar doc master p.0 c 0
unfolding route_index_document shard_at fnv index_on lookup str_dec
route_index_document-same_client_example =
    route_index_document-same_client nodes "books" foobar doc master 0 refl

-- The other document lies on a shard without an allocation: a write panics, and a deletion is refused.
unallocated_write : route_index_document nodes master "books" (102 ∷ []) doc ≡ none
unfolding route_index_document shard_at fnv index_on
unallocated_write = refl

unallocated_deletion : route_delete_document nodes master "books" (102 ∷ []) ≡ err (not_available 1)
unfolding route_delete_document shard_at fnv delete_on
unallocated_deletion = refl
