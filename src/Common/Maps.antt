-- ===== src/Common/Maps.antt =====
-- Go's maps with string keys, as association lists. What a program reads of a map goes through
-- `lookup`; the order of the entries stands for the order in which `range` visits them.
use Prim.Native.String.{String}
use mathlib.Core.Path.{◌≡◌, refl, subst₂}
use mathlib.Core.Logic.{ite}
use mathlib.Core.List.{List, [], ◌∷◌}
use mathlib.Core.Option.{Option, none, some, some-injective}
use native.Mathlib.Omega.{arith}
use quidditch.Common.Tests.{str_dec}

abbrev pub Map {ℓ} : Type ℓ → Type ℓ
Map V = List (String × V)

module _ {ℓ} {V : Type ℓ} where
  -- `v, exists := m[k]`
  unfoldable pub lookup : String → Map V → Option V
  lookup k [] = none
  lookup k ((j, v) ∷ m) = ite (str_dec j k) (some v) (lookup k m)

  -- `m[k] = v`
  unfoldable pub insert : String → V → Map V → Map V
  insert k v [] = (k, v) ∷ []
  insert k v ((j, w) ∷ m) = ite (str_dec j k) ((k, v) ∷ m) ((j, w) ∷ insert k v m)

  -- `delete(m, k)`
  unfoldable pub delete : String → Map V → Map V
  delete k [] = []
  delete k ((j, w) ∷ m) = let rest = delete k m in ite (str_dec j k) rest ((j, w) ∷ rest)

  pub lookup-insert :
      (k j : String) (v : V) (m : Map V)
      → lookup j (insert k v m) ≡ ite (str_dec k j) (some v) (lookup j m)
  unfolding lookup insert
  lookup-insert k j v [] = refl
  lookup-insert k j v ((i, w) ∷ m) = ground (arith, lookup-insert k j v m)

  pub lookup-insert_self : (k : String) (v : V) (m : Map V) → lookup k (insert k v m) ≡ some v
  lookup-insert_self k v m = ground (arith, lookup-insert k k v m)

  pub lookup-delete :
      (k j : String) (m : Map V) → lookup j (delete k m) ≡ ite (str_dec k j) none (lookup j m)
  unfolding lookup delete
  lookup-delete k j [] = ground arith
  lookup-delete k j ((i, w) ∷ m) = ground (arith, lookup-delete k j m)

-- A predicate at every entry that can be read.
abbrev pub AllKeys {ℓ κ} : {V : Type ℓ} → (String → V → Type κ) → Map V → Type (ℓ ⊔ κ)
AllKeys {V = V} P m = (k : String) (v : V) → lookup k m ≡ some v → P k v

module _ {ℓ κ} {V : Type ℓ} (P : String → V → Type κ) where
  pub AllKeys-insert :
      (k : String) (v : V) (m : Map V) → P k v → AllKeys P m → AllKeys P (insert k v m)
  AllKeys-insert k v m p h j w e = elim (str_dec k j) [
    | yes q ↦
        let e' : some v ≡ some w = ground (arith, lookup-insert k j v m) in
        subst₂ P q (some-injective v w e') p
    | no n ↦ h j w (ground (arith, lookup-insert k j v m))
  ]

  pub AllKeys-delete : (k : String) (m : Map V) → AllKeys P m → AllKeys P (delete k m)
  AllKeys-delete k m h j w e = h j w (ground (arith, lookup-delete k j m))

  pub AllKeys-nil : AllKeys P []
  unfolding lookup
  AllKeys-nil k v e = absurd (cc)

pub lookup-nil {ℓ} : {V : Type ℓ} (k : String) → lookup {V = V} k [] ≡ none
unfolding lookup
lookup-nil k = refl

pub ruleset map_laws = (lookup-insert, lookup-delete, lookup-nil)
