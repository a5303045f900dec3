-- ===== src/Pipeline/Associations.antt =====
-- `AssociatePipeline` and `DisassociatePipeline` of pkg/coordination/pipeline/registry.go and the
-- invariant of the registry.
use quidditch.Common.{
  String, [], ◌∷◌, Map, lookup, delete, AllKeys, AllKeys-insert, AllKeys-delete, AllKeys-nil,
  Option-cases, inl, inr, ite, str_dec,
}
use quidditch.Pipeline.Registry.{Registry, associate, disassociate, entries, put_or_drop, Outcome}
use quidditch.Pipeline.Invariant.{Serves, IsValid}

module _ {X S : Type 0} where
  entries-Serves :
      (r : Registry X S)
      → IsValid r
      → (ix : String) → AllKeys (Serves r.pipelines) (entries ix r.index_pipelines)
  entries-Serves r v ix = elim (Option-cases (lookup ix r.index_pipelines)) [
    | inl gone ↦ rw (gone, entries) (AllKeys-nil (Serves r.pipelines))
    | inr (m, at) ↦ rw (at, entries) (v.served ix m at)
  ]

  either_way :
      {A : Type 0} (d : Dec A) (x y : Outcome X S)
      → (A → IsValid x.0)
      → IsValid y.0
      → IsValid (ite d x y).0
  either_way (yes a) x y hx hy = hx a
  either_way (no _) x y hx hy = hy

  pub associate-IsValid :
      (ix t n : String) (r : Registry X S) → IsValid r → IsValid (associate ix t n r).0
  unfolding associate
  associate-IsValid ix t n r v = elim (Option-cases (lookup n r.pipelines)) [
    | inl gone ↦ rw (gone, associate) v
    | inr (impl, is) ↦
        rw (is, associate)
          (either_way (str_dec impl.def.type_name t) _ (r, _)
            (λ typed. record {
              served =
                  AllKeys-insert (λ _ k. AllKeys (Serves r.pipelines) k) ix _ r.index_pipelines
                    (AllKeys-insert (Serves r.pipelines) t n _ (impl, is, typed)
                      (entries-Serves r v ix))
                    v.served;
              named = v.named;
              tallied = v.tallied;
              counted = v.counted;
            })
            v)
  ]

  put_or_drop-served :
      (r : Registry X S)
      → IsValid r
      → (ix : String) (m : Map String) → AllKeys (Serves r.pipelines) m
      → AllKeys (λ _ k. AllKeys (Serves r.pipelines) k) (put_or_drop ix m r.index_pipelines)
  put_or_drop-served r v ix [] all = AllKeys-delete _ ix r.index_pipelines v.served
  put_or_drop-served r v ix (x ∷ m) all = AllKeys-insert _ ix _ r.index_pipelines all v.served

  pub disassociate-IsValid :
      (ix t : String) (r : Registry X S) → IsValid r → IsValid (disassociate ix t r).0
  unfolding disassociate
  disassociate-IsValid ix t r v = elim (Option-cases (lookup ix r.index_pipelines)) [
    | inl gone ↦ rw (gone, disassociate) v
    | inr (m, at) ↦ elim (Option-cases (lookup t m)) [
      | inl no_entry ↦ rw (at, disassociate) (rw no_entry v)
      | inr (n, has) ↦
          rw (at, disassociate)
            (rw has (record {
              served =
                  put_or_drop-served r v ix (delete t m)
                    (AllKeys-delete (Serves r.pipelines) t m (v.served ix m at));
              named = v.named;
              tallied = v.tallied;
              counted = v.counted;
            }))
    ]
  ]
