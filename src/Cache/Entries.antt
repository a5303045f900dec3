-- ===== src/Cache/Entries.antt =====
-- The list of entries behind pkg/coordination/cache/lru_cache.go: distinct keys, sizes and the
-- removal of one entry.
use mathlib.Core.Path.{subst}
use quidditch.Common.{
  ℕ, ◌+◌, ◌^◌, ◌<◌, ◌≡◌, ◌≢◌, refl, sym, ap, String, none, some, List, [], ◌∷◌, ◌++◌, arith, length,
}
use quidditch.Cache.Lru.{Entry, find, without, back}

module _ {ℓ} {V : Type ℓ} where
  -- No key occurs twice.
  abbrev pub Distinct : List (Entry V) → Type ℓ
  Distinct [] = Unit
  Distinct (e ∷ l) = (find e.key l ≡ none) × Distinct l

  abbrev pub SizesFit : List (Entry V) → Type 0
  SizesFit [] = Unit
  SizesFit (e ∷ l) = (e.size < 2 ^ 64) × SizesFit l

  abbrev pub total_size : List (Entry V) → ℕ
  total_size [] = 0
  total_size (e ∷ l) = e.size + total_size l

  -- All but the last.
  abbrev pub init : List (Entry V) → List (Entry V)
  init [] = []
  init (e ∷ []) = []
  init (e ∷ f ∷ l) = e ∷ init (f ∷ l)

  pub init-append-back : (l : List (Entry V)) (e : Entry V) → back l ≡ some e → init l ++ e ∷ [] ≡ l
  unfolding back
  init-append-back [] e h = absurd (cc)
  init-append-back (x ∷ []) e h = cc
  init-append-back (x ∷ y ∷ l) e h = ap (◌∷◌ x) (init-append-back (y ∷ l) e h)

  back-key-ne :
      (l : List (Entry V)) (e : Entry V) (k : String)
      → find k l ≡ none
      → back l ≡ some e
      → e.key ≢ k
  unfolding find back
  back-key-ne [] e k h b = absurd (cc)
  back-key-ne (x ∷ []) e k h b = ground arith
  back-key-ne (x ∷ y ∷ l) e k h b = back-key-ne (y ∷ l) e k (ground arith) b

  -- The entry at the back is the one that its key finds.
  pub without-back :
      (l : List (Entry V)) (e : Entry V) → Distinct l → back l ≡ some e → without e.key l ≡ init l
  unfolding without back
  without-back [] e d b = absurd (cc)
  without-back (x ∷ []) e d b = ground arith
  without-back (x ∷ y ∷ l) e d b =
      ground (arith, without-back (y ∷ l) e d.1 b, back-key-ne (y ∷ l) e x.key d.0 b)

  pub find-without_ne :
      (k j : String) (l : List (Entry V)) → j ≢ k → find j (without k l) ≡ find j l
  unfolding find without
  find-without_ne k j [] n = refl
  find-without_ne k j (e ∷ l) n = ground (arith, find-without_ne k j l n)

  find-without-none :
      (k j : String) (l : List (Entry V)) → find j l ≡ none → find j (without k l) ≡ none
  unfolding find without
  find-without-none k j [] h = refl
  find-without-none k j (e ∷ l) h = ground (arith, find-without-none k j l)

  pub find-without_self :
      (k : String) (l : List (Entry V)) → Distinct l → find k (without k l) ≡ none
  unfolding find without
  find-without_self k [] d = refl
  find-without_self k (e ∷ l) d = ground (arith, find-without_self k l d.1)

  pub without-Distinct : (k : String) (l : List (Entry V)) → Distinct l → Distinct (without k l)
  unfolding without
  without-Distinct k [] d = tt
  without-Distinct k (e ∷ l) d =
      ground (arith, without-Distinct k l d.1, find-without-none k e.key l d.0)

  pub without-SizesFit : (k : String) (l : List (Entry V)) → SizesFit l → SizesFit (without k l)
  unfolding without
  without-SizesFit k [] d = tt
  without-SizesFit k (e ∷ l) d = ground (arith, without-SizesFit k l d.1)

  pub total_size-without :
      (k : String) (l : List (Entry V)) (e : Entry V)
      → find k l ≡ some e
      → total_size (without k l) + e.size ≡ total_size l
  unfolding find without
  total_size-without k [] e h = absurd (cc)
  total_size-without k (x ∷ l) e h = ground (arith, total_size-without k l e)

  pub length-without :
      (k : String) (l : List (Entry V)) (e : Entry V)
      → find k l ≡ some e
      → length (without k l) + 1 ≡ length l
  unfolding find without
  length-without k [] e h = absurd (cc)
  length-without k (x ∷ l) e h = ground (arith, length-without k l e)

  pub find-key : (k : String) (l : List (Entry V)) (e : Entry V) → find k l ≡ some e → e.key ≡ k
  unfolding find
  find-key k [] e h = absurd (cc)
  find-key k (x ∷ l) e h = ground (arith, find-key k l e)

  pub find-size :
      (k : String) (l : List (Entry V)) (e : Entry V)
      → SizesFit l
      → find k l ≡ some e
      → e.size < 2 ^ 64
  unfolding find
  find-size k [] e s h = absurd (cc)
  find-size k (x ∷ l) e s h = ground (arith, find-size k l e s.1)

  pub find-back :
      (l : List (Entry V)) (e : Entry V) → Distinct l → back l ≡ some e → find e.key l ≡ some e
  unfolding find back
  find-back [] e d b = absurd (cc)
  find-back (x ∷ []) e d b = ground arith
  find-back (x ∷ y ∷ l) e d b =
      ground (arith, find-back (y ∷ l) e d.1 b, back-key-ne (y ∷ l) e x.key d.0 b)

  pub back-some : (x : Entry V) (l : List (Entry V)) → (e : Entry V) × (back (x ∷ l) ≡ some e)
  unfolding back
  back-some x [] = (x, refl)
  back-some x (y ∷ l) = back-some y l

  pub find-own :
      (k : String) (l : List (Entry V)) (e : Entry V) → find k l ≡ some e → find e.key l ≡ some e
  find-own k l e h = subst (λ j. find j l ≡ some e) (sym (find-key k l e h)) h
