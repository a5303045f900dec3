-- ===== src/Cache/Cleanup.antt =====
-- `CleanupExpired` of pkg/coordination/cache/lru_cache.go.
use mathlib.Core.List.{reverse-append, append_assoc, append-nil, reverse-reverse}
use mathlib.Core.Path.{subst}
use quidditch.Common.{
  ℕ, suc, ◌+◌, ◌≡◌, ◌≢◌, inl, inr, refl, ap, sym, ◌∙◌, some, List, [], ◌∷◌, ◌++◌, reverse, arith,
  if◌then◌else◌, length, add64, wrap64, Bool-cases,
}
use quidditch.Cache.Lru.{
  Entry, LruCache, find, without, remove_element, expired, cleanup_from, cleanup_expired,
}
use quidditch.Cache.Entries.{Distinct}
use quidditch.Cache.Limits.{IsValid}
use quidditch.Cache.Calls.{remove_element-IsValid, stats-IsValid}

module _ {ℓ} {V : Type ℓ} (now : ℕ) where
  -- The entries that are not expired, in their order.
  abbrev pub fresh : List (Entry V) → List (Entry V)
  fresh [] = []
  fresh (e ∷ l) = if expired now e then fresh l else e ∷ fresh l

  abbrev pub count_expired : List (Entry V) → ℕ
  count_expired [] = 0
  count_expired (e ∷ l) = let n = count_expired l in if expired now e then suc n else n

  count_expired-fresh : (l : List (Entry V)) → count_expired l + length (fresh l) ≡ length l
  count_expired-fresh [] = refl
  count_expired-fresh (e ∷ l) = ground (arith, count_expired-fresh l)

  fresh-append : (l m : List (Entry V)) → fresh (l ++ m) ≡ fresh l ++ fresh m
  fresh-append [] m = refl
  fresh-append (e ∷ l) m = ground (arith, fresh-append l m)

module _ {ℓ} {V : Type ℓ} where
  -- The walked elements, back in the order of the list.
  abbrev onto : List (Entry V) → List (Entry V) → List (Entry V)
  onto [] l = l
  onto (e ∷ es) l = onto es (e ∷ l)

  length-onto : (es l : List (Entry V)) → length (onto es l) ≡ length es + length l
  length-onto [] l = omega arith
  length-onto (e ∷ es) l = omega (arith, length-onto es (e ∷ l))

  Distinct-onto_tail : (es l : List (Entry V)) → Distinct (onto es l) → Distinct l
  Distinct-onto_tail [] l d = d
  Distinct-onto_tail (e ∷ es) l d = (Distinct-onto_tail es (e ∷ l) d).1

  -- An element inside a list with distinct keys is the one that its key finds, and it alone goes.
  find-onto :
      (es l : List (Entry V)) (e : Entry V)
      → Distinct (onto es l)
      → find e.key l ≡ some e
      → find e.key (onto es l) ≡ some e
  unfolding find
  find-onto [] l e d h = h
  find-onto (x ∷ es) l e d h =
      find-onto es (x ∷ l) e d (let fresh_key = (Distinct-onto_tail es (x ∷ l) d).0 in ground arith)

  without-onto :
      (es l : List (Entry V)) (e : Entry V)
      → Distinct (onto es l)
      → find e.key l ≡ some e
      → without e.key (onto es l) ≡ onto es (without e.key l)
  unfolding find without
  without-onto [] l e d h = refl
  without-onto (x ∷ es) l e d h =
      let fresh_key = (Distinct-onto_tail es (x ∷ l) d).0 in
      let other : x.key ≢ e.key = ground arith in
      without-onto es (x ∷ l) e d (ground arith) ∙ ap (onto es) (ground arith)

  onto-eq : (es l : List (Entry V)) → onto es l ≡ reverse es ++ l
  onto-eq [] l = refl
  onto-eq (e ∷ es) l =
      onto-eq es (e ∷ l)
      ∙ sym (append_assoc (reverse es) (e ∷ []) l)
      ∙ ap (λ r. r ++ l) (sym (reverse-append (e ∷ []) es))

  fresh-reverse : (now : ℕ) (l : List (Entry V)) → fresh now (reverse l) ≡ reverse (fresh now l)
  fresh-reverse now [] = refl
  fresh-reverse now (e ∷ l) =
      ap (fresh now) (reverse-append (e ∷ []) l)
      ∙ fresh-append now (reverse l) (e ∷ [])
      ∙ elim (Bool-cases (expired now e)) [
        | inl old ↦ rw old (append-nil _ ∙ fresh-reverse now l)
        | inr young ↦ rw young (
            ap (λ r. r ++ e ∷ []) (fresh-reverse now l)
            ∙ sym (reverse-append (e ∷ []) (fresh now l)))
      ]

  -- What the loop has done when the elements `es` are still to be walked.
  record Swept (now : ℕ) (es kept : List (Entry V)) (c c' : LruCache V) (n m : ℕ) : Type ℓ where
    list : c'.eviction_list ≡ onto (fresh now es) kept
    valid : IsValid c'
    capacity : c'.capacity ≡ c.capacity
    removed : m ≡ n + count_expired now es
    expirations : wrap64 c'.expirations ≡ wrap64 (c.expirations + count_expired now es)

  -- The element that is walked, removed.
  module _ (c : LruCache V) (e : Entry V) (es kept : List (Entry V))
      (at : c.eviction_list ≡ onto (e ∷ es) kept) (v : IsValid c) where
    walked_found : find e.key c.eviction_list ≡ some e
    unfolding find
    walked_found =
        subst (λ l. find e.key l ≡ some e) (sym at)
          (find-onto es (e ∷ kept) e (subst Distinct at v.consistent.distinct) (ground arith))

    walked_removed : (remove_element c e).eviction_list ≡ onto es kept
    unfolding remove_element find without
    walked_removed =
        ap (without e.key) at
        ∙ without-onto es (e ∷ kept) e (subst Distinct at v.consistent.distinct) (ground arith)
        ∙ ap (onto es) (ground arith)

  capacity-remove_element :
      (c : LruCache V) (e : Entry V) → (remove_element c e).capacity ≡ c.capacity
  unfolding remove_element
  capacity-remove_element c e = refl

  sweep :
      (now : ℕ) (es kept : List (Entry V)) (c : LruCache V) (n : ℕ)
      → c.eviction_list ≡ onto es kept
      → IsValid c
      → Swept now es kept c (cleanup_from now es c n).0 n (cleanup_from now es c n).1
  unfolding cleanup_from
  sweep now [] kept c n at v = record {
    list = at;
    valid = v;
    capacity = refl;
    removed = omega arith;
    expirations = omega arith;
  }
  sweep now (e ∷ es) kept c n at v = elim (Bool-cases (expired now e)) [
    | inr young ↦
        let rest = sweep now es (e ∷ kept) c n at v in
        rw (young, cleanup_from)
          (record {
            list = rw young rest.list;
            valid = rest.valid;
            capacity = rest.capacity;
            removed = rw young rest.removed;
            expirations = rw young rest.expirations;
          })
    | inl old ↦
        let r = remove_element c e in
        let d = record r { expirations = add64 c.expirations 1 } in
        let w =
          stats-IsValid r r.hits r.misses r.evictions (add64 c.expirations 1)
            (remove_element-IsValid c v e e.key (walked_found c e es kept at v)) in
        let rest = sweep now es kept d (n + 1) (walked_removed c e es kept at v) w in
        rw (old, cleanup_from)
          (record {
            list = rw old rest.list;
            valid = rest.valid;
            capacity = rest.capacity ∙ capacity-remove_element c e;
            removed = rw old (omega (arith, rest.removed));
            expirations = rw old (omega (arith, rest.expirations));
          })
  ]

  -- On a cache that keeps the invariant `CleanupExpired` removes exactly the expired entries, leaves
  -- the others in their order, returns how many it removed, counts them as expirations, and keeps
  -- the invariant and the capacity.
  pub cleanup_expired-fresh :
      (now : ℕ) (c : LruCache V)
      → IsValid c
      → let (c', removed) = cleanup_expired now c in
        (c'.eviction_list ≡ fresh now c.eviction_list)
        × IsValid c'
        × (removed + length c'.eviction_list ≡ length c.eviction_list)
        × (wrap64 c'.expirations ≡ wrap64 (c.expirations + removed))
        × (c'.capacity ≡ c.capacity)
  unfolding cleanup_expired
  cleanup_expired-fresh now c v =
      let l = c.eviction_list in
      let back_to_front : l ≡ onto (reverse l) [] =
        sym (onto-eq (reverse l) [] ∙ append-nil _ ∙ reverse-reverse l) in
      let s = sweep now (reverse l) [] c 0 back_to_front v in
      let list' =
        s.list
        ∙ ap (λ r. onto r []) (fresh-reverse now l)
        ∙ onto-eq (reverse (fresh now l)) []
        ∙ append-nil _
        ∙ reverse-reverse (fresh now l) in
      let es = reverse l in
      let whole : (cleanup_from now es c 0).1 + length (cleanup_from now es c 0).0.eviction_list
          ≡ length l =
        omega (
          arith,
          s.removed,
          ap length s.list,
          length-onto (fresh now es) [],
          count_expired-fresh now es,
          ap length back_to_front,
          length-onto es [],
        ) in
      (list', s.valid, whole, omega (arith, s.removed, s.expirations), s.capacity)
