-- ===== src/Pipeline/Invariant.antt =====
-- The invariant of pkg/coordination/pipeline/registry.go: associations, names, statistics.
use quidditch.Common.{
  ℕ, ◌≡◌, refl, sym, String, none, some, [], ◌∷◌, arith, Map, lookup, insert, delete, lookup-insert,
  lookup-delete, lookup-insert_self, AllKeys, AllKeys-insert, AllKeys-delete, AllKeys-nil,
  Option-cases, inl, inr, str_dec, add64,
}
use quidditch.Pipeline.Definition.{PipelineDefinition}
use quidditch.Pipeline.Validate.{validate_pipeline}
use quidditch.Pipeline.Stats.{PipelineStats}
use quidditch.Pipeline.Registry.{
  Impl, Registry, registered, new_registry, register, unregister, type_with, user_of,
}

-- A pipeline that no type of an index uses is no entry of it.
type_with-none :
    (n : String) (m : Map String) (t : String) → type_with n m ≡ none → lookup t m ≡ some n → ⊥
unfolding type_with lookup
type_with-none n [] t e h = cc
type_with-none n ((u, p) ∷ m) t e h = ground (arith, type_with-none n m t)

user_of-none :
    (n : String) (ms : Map (Map String)) (ix : String) (m : Map String) (t : String)
    → user_of n ms ≡ none
    → lookup ix ms ≡ some m
    → lookup t m ≡ some n
    → ⊥
unfolding user_of lookup
user_of-none n [] ix m t e at h = cc
user_of-none n ((i, k) ∷ ms) ix m t e at h = elim (Option-cases (type_with n k)) [
  | inl unused ↦ ground (arith, user_of-none n ms ix m t, type_with-none n k t unused)
  | inr (u, used) ↦ ground arith
]

-- Every run is either a success or a failure.
abbrev pub IsTallied : PipelineStats → Type 0
IsTallied s = add64 s.successful s.failed ≡ s.total

-- The statistics stand under their pipeline's name, and are tallied.
abbrev pub Tallied : String → PipelineStats → Type 0
Tallied n s = (s.name ≡ n) × IsTallied s

module _ {X S : Type 0} where
  -- What an entry of an index promises.
  abbrev pub Serves : Map (Impl X S) → String → String → Type 0
  Serves ps t n = (impl : Impl X S) × (lookup n ps ≡ some impl) × (impl.def.type_name ≡ t)

  abbrev pub NamedImpl : String → Impl X S → Type 0
  NamedImpl n impl = (impl.def.name ≡ n) × (validate_pipeline impl.def ≡ none)

  -- The statistics of a pipeline.
  abbrev pub Counted : Map PipelineStats → String → Impl X S → Type 0
  Counted stats n _ = (s : PipelineStats) × (lookup n stats ≡ some s)

  pub record IsValid (r : Registry X S) : Type 0 where
    pub served : AllKeys (λ ix m. AllKeys (Serves r.pipelines) m) r.index_pipelines
    pub named : AllKeys NamedImpl r.pipelines
    pub tallied : AllKeys Tallied r.stats
    pub counted : AllKeys (Counted r.stats) r.pipelines

  pub new_registry-IsValid : IsValid new_registry
  new_registry-IsValid = record {
    served = AllKeys-nil _;
    named = AllKeys-nil _;
    tallied = AllKeys-nil _;
    counted = AllKeys-nil _;
  }

  -- A new pipeline under a free name takes nothing from the entries.
  Serves-insert :
      (ps : Map (Impl X S)) (k : String) (v : Impl X S) (t n : String)
      → lookup k ps ≡ none
      → Serves ps t n
      → Serves (insert k v ps) t n
  Serves-insert ps k v t n free (impl, at, typed) =
      (impl, ground (arith, lookup-insert k n v ps), typed)

  pub Counted-insert :
      (stats : Map PipelineStats) (k : String) (v : PipelineStats) (n : String) (impl : Impl X S)
      → Counted stats n impl
      → Counted (insert k v stats) n impl
  Counted-insert stats k v n impl (s, at) = elim (str_dec k n) [
    | yes same ↦ (v, ground (arith, lookup-insert k n v stats))
    | no other ↦ (s, ground (arith, lookup-insert k n v stats))
  ]

  registered-IsValid :
      (now : ℕ) (def : PipelineDefinition X) (r : Registry X S)
      → IsValid r
      → validate_pipeline def ≡ none
      → lookup def.name r.pipelines ≡ none
      → IsValid (registered now def r)
  unfolding registered validate_pipeline
  registered-IsValid now def r v good free = record {
    served =
        λ ix m at t n has. Serves-insert r.pipelines def.name _ t n free (v.served ix m at t n has);
    named = AllKeys-insert NamedImpl def.name _ r.pipelines (refl, good) v.named;
    tallied = AllKeys-insert Tallied def.name _ r.stats (refl, refl) v.tallied;
    counted =
        AllKeys-insert (Counted _) def.name _ r.pipelines (_, lookup-insert_self def.name _ r.stats)
          (λ n impl at. Counted-insert r.stats def.name _ n impl (v.counted n impl at));
  }

  pub register-IsValid :
      (now : ℕ) (def : PipelineDefinition X) (r : Registry X S)
      → IsValid r
      → IsValid (register now def r).0
  unfolding register
  register-IsValid now def r v = elim (Option-cases (validate_pipeline def)) [
    | inr (e, bad) ↦ rw (bad, register) v
    | inl good ↦ elim (Option-cases (lookup def.name r.pipelines)) [
      | inr (impl, is) ↦ rw (good, register) (rw is v)
      | inl free ↦ rw (good, register) (rw free (registered-IsValid now def r v good free))
    ]
  ]

  Serves-delete :
      (ps : Map (Impl X S)) (k t n : String)
      → (n ≡ k → ⊥)
      → Serves ps t n
      → Serves (delete k ps) t n
  Serves-delete ps k t n other (impl, at, typed) =
      (impl, ground (arith, lookup-delete k n ps), typed)

  Counted-delete :
      (stats : Map PipelineStats) (k n : String) (impl : Impl X S)
      → (n ≡ k → ⊥)
      → Counted stats n impl
      → Counted (delete k stats) n impl
  Counted-delete stats k n impl other (s, at) = (s, ground (arith, lookup-delete k n stats))

  kept_key :
      (ps : Map (Impl X S)) (k n : String) (impl : Impl X S)
      → lookup n (delete k ps) ≡ some impl
      → (n ≡ k → ⊥) × (lookup n ps ≡ some impl)
  kept_key ps k n impl at = elim (str_dec k n) [
    | yes same ↦ absurd (ground (arith, lookup-delete k n ps))
    | no other ↦ (λ e. other (sym e), ground (arith, lookup-delete k n ps))
  ]

  pub unregister-IsValid : (n : String) (r : Registry X S) → IsValid r → IsValid (unregister n r).0
  unfolding unregister
  unregister-IsValid n r v = elim (Option-cases (lookup n r.pipelines)) [
    | inl gone ↦ rw (gone, unregister) v
    | inr (impl, is) ↦ elim (Option-cases (user_of n r.index_pipelines)) [
      | inr (u, used) ↦ rw (is, unregister) (rw used v)
      | inl unused ↦
          rw (is, unregister)
            (rw unused (record {
              served = λ ix m at t p has.
                  Serves-delete r.pipelines n t p
                    (λ e. user_of-none n r.index_pipelines ix m t unused at (ground arith))
                    (v.served ix m at t p has);
              named = AllKeys-delete NamedImpl n r.pipelines v.named;
              tallied = AllKeys-delete Tallied n r.stats v.tallied;
              counted = λ p i at.
                  let (other, was) = kept_key r.pipelines n p i at in
                  Counted-delete r.stats n p i other (v.counted p i was);
            }))
    ]
  ]
