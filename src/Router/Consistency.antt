-- ===== src/Router/Consistency.antt =====
-- Where writes and reads of a document go in pkg/coordination/router/router.go.
use mathlib.Core.Path.{subst}
use quidditch.Common.{
  ℕ, ◌<◌, ◌≡◌, refl, String, Bool, true, false, Option, none, some, some-injective, str_eq, arith,
  Map, lookup, not, inl, inr, Option-cases, if◌then◌else◌, ◌==◌,
}
use quidditch.Common.Results.{Result, ok, err, Gives, >>=-Gives, Gives-ok, Result-cases}
use quidditch.Json.{Fields}
use quidditch.Router.Documents.{
  DocId, Allocation, Shard, Master, Client, RouteError, metadata_failed, no_shards, routing_failed,
  shard_not_found, not_available, not_primary, no_node, client_not_found, connection_failed,
  call_failed, shard_at, calculate_shard_id, check, required, locate, client_for, index_located,
  index_on, get_on, delete_on, route_index_document, route_get_document, route_delete_document,
}

check-Gives : (b : Bool) (e : RouteError) → Gives (λ u. b ≡ true) (check b e)
check-Gives true e = refl
check-Gives false e = tt

required-Gives {ℓ} :
    {A : Type ℓ} (e : RouteError) (o : Option A) → Gives (λ a. o ≡ some a) (required e o)
required-Gives e none = tt
required-Gives e (some a) = refl

required-Gives_each {ℓ κ} :
    {A : Type ℓ} (P : A → Type κ) (e : RouteError) (o : Option A)
    → ((a : A) → o ≡ some a → P a)
    → Gives P (required e o)
required-Gives_each P e none h = tt
required-Gives_each P e (some a) h = h a refl

Gives-self {ℓ κ} : {E : Type ℓ} {A : Type κ} (m : Result E A) → Gives (λ a. m ≡ ok a) m
Gives-self (ok a) = refl
Gives-self (err e) = tt

-- A shard that is found for a document is that of its hash, below the number of shards.
abbrev pub IsShardOf : Master → String → DocId → ℕ × Shard → Type 0
IsShardOf m index id p =
    (n : ℕ) × (m.number_of_shards index ≡ some n) × (p.0 ≡ calculate_shard_id id n) × (p.0 < n)

locate-IsShardOf :
    (m : Master) (index : String) (id : DocId) → Gives (IsShardOf m index id) (locate m index id)
locate-IsShardOf m index id =
    let Q = IsShardOf m index id in
    >>=-Gives (λ n. m.number_of_shards index ≡ some n) Q _ _
      (required-Gives metadata_failed (m.number_of_shards index))
      (λ n counted.
        >>=-Gives (λ u. not (n == 0) ≡ true) Q _ _ (check-Gives (not (n == 0)) no_shards)
          (λ u positive.
            let sid = calculate_shard_id id n in
            >>=-Gives (λ rs. m.routing index ≡ some rs) Q _ _
              (required-Gives routing_failed (m.routing index))
              (λ rs routed.
                >>=-Gives (λ s. shard_at sid rs ≡ some s) Q _ _
                  (required-Gives (shard_not_found sid) (shard_at sid rs))
                  (λ s found. (n, counted, refl, ground (arith, positive))))))

module _ {ℓ} {R : Type ℓ} (clients : Map (Client R)) (index : String) (id : DocId)
    (doc : Fields) where
  -- A write that succeeds on an allocation.
  abbrev Wrote : ℕ → Bool → Allocation → R → Type ℓ
  Wrote sid primary a r =
      (a.is_started ≡ true)
      × (primary ≡ true)
      × (c : Client R) × (client_for clients sid a ≡ ok c)
      × (c.index_document index sid id doc ≡ some r)

  index_on-Wrote :
      (sid : ℕ) (primary : Bool) (a : Allocation) (r : R)
      → index_on clients index id doc sid primary (some a) ≡ some (ok r)
      → Wrote sid primary a r
  unfolding index_on
  index_on-Wrote sid primary a r h =
      let Q = Wrote sid primary a in
      Gives-ok Q _ (some-injective _ _ h) (
        >>=-Gives (λ u. a.is_started ≡ true) Q _ _ (check-Gives a.is_started (not_available sid))
          (λ u started.
            >>=-Gives (λ u. primary ≡ true) Q _ _ (check-Gives primary (not_primary sid))
              (λ u is_primary.
                >>=-Gives (λ c. client_for clients sid a ≡ ok c) Q _ _
                  (Gives-self (client_for clients sid a))
                  (λ c client.
                    required-Gives_each Q call_failed (c.index_document index sid id doc)
                      (λ r written. (started, is_primary, c, client, written))))))

  client_for-lookup :
      (sid : ℕ) (a : Allocation)
      → Gives (λ c. lookup a.node_id clients ≡ some c) (client_for clients sid a)
  client_for-lookup sid a =
      let Q = λ (c : Client R). lookup a.node_id clients ≡ some c in
      let named = not (str_eq a.node_id "") in
      >>=-Gives (λ u. named ≡ true) Q _ _ (check-Gives named (no_node sid))
        (λ u is_named.
          >>=-Gives Q Q _ _ (required-Gives (client_not_found a.node_id) (lookup a.node_id clients))
            (λ c found.
              let reached = if c.is_connected then true else c.connects in
              >>=-Gives (λ u. reached ≡ true) Q _ _
                (check-Gives reached (connection_failed a.node_id)) (λ u is_reached. found)))

  get_on-client :
      (sid : ℕ) (a : Allocation) (c : Client R)
      → a.is_started ≡ true
      → client_for clients sid a ≡ ok c
      → get_on clients index id sid (some a) ≡ required call_failed (c.get_document index sid id)
  unfolding get_on
  get_on-client sid a c started client = rw started (rw client refl)

  delete_on-client :
      (sid : ℕ) (primary : Bool) (a : Allocation) (c : Client R)
      → a.is_started ≡ true
      → primary ≡ true
      → client_for clients sid a ≡ ok c
      → delete_on clients index id sid primary (some a)
        ≡ required call_failed (c.delete_document index sid id)
  unfolding delete_on
  delete_on-client sid primary a c started is_primary client =
      rw started (rw is_primary (rw client refl))

  -- The client that a write, and reads and deletions of the same document, all call for the same shard.
  abbrev pub Serves : Master → ℕ → Client R → R → Type ℓ
  Serves m sid c r =
      (c.index_document index sid id doc ≡ some r)
      × (route_get_document clients m index id ≡ required call_failed (c.get_document index sid id))
      × (route_delete_document clients m index id
          ≡ required call_failed (c.delete_document index sid id))

  -- When the router writes a document, it has written it to the started primary of the shard of its hash, below the number of
  -- shards, through the client of the node that holds it; and a read and a deletion of the same document are then calls of
  -- the same client for the same shard.
  pub route_index_document-same_client :
      (m : Master) (r : R)
      → route_index_document clients m index id doc ≡ some (ok r)
      → (p : ℕ × Shard) × (a : Allocation) × (c : Client R) × IsShardOf m index id p
        × (p.1.allocation ≡ some a)
        × (a.is_started ≡ true)
        × (p.1.is_primary ≡ true)
        × (lookup a.node_id clients ≡ some c)
        × Serves m p.0 c r
  unfolding route_index_document route_get_document route_delete_document index_on
  route_index_document-same_client m r h = elim (Result-cases (locate m index id)) [
    | inr (e, failed) ↦
        let h' = subst (λ l. index_located clients index id doc l ≡ some (ok r)) failed h in cc
    | inl (p, located) ↦
        let h' = subst (λ l. index_located clients index id doc l ≡ some (ok r)) located h in
        elim (Option-cases p.1.allocation) [
          | inl missing ↦
              let h'' =
                subst (λ o. index_on clients index id doc p.0 p.1.is_primary o ≡ some (ok r))
                  missing h' in
              cc
          | inr (a, allocated) ↦
              let h'' =
                subst (λ o. index_on clients index id doc p.0 p.1.is_primary o ≡ some (ok r))
                  allocated h' in
              let (started, is_primary, c, client, written) =
                index_on-Wrote p.0 p.1.is_primary a r h'' in
              (
                p,
                a,
                c,
                Gives-ok (IsShardOf m index id) _ located (locate-IsShardOf m index id),
                allocated,
                started,
                is_primary,
                Gives-ok (λ c. lookup a.node_id clients ≡ some c) _ client
                    (client_for-lookup p.0 a),
                (
                  written,
                  rw located (rw allocated (get_on-client p.0 a c started client)),
                  rw located (
                      rw allocated
                        (delete_on-client p.0 p.1.is_primary a c started is_primary client)),
                ),
              )
        ]
  ]
