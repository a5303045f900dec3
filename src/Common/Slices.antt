-- ===== src/Common/Slices.antt =====
-- Go slice expressions, and the lists that they give.
use Prim.Native.Nat.{ℕ, zero, suc, ◌-◌, ◌≤◌, ◌<◌}
use mathlib.Core.Path.{◌≡◌, refl, ap}
use mathlib.Core.Bool.{◌&&◌}
use mathlib.Core.Option.{Option, none, some}
use mathlib.Core.List.{List, [], ◌∷◌}
use native.Mathlib.Omega.{arith}
use quidditch.Common.Tests.{leb, if◌then◌else◌}
use quidditch.Common.Lists.{length}

module _ {A : Type 0} where
  abbrev pub take : ℕ → List A → List A
  take zero xs = []
  take (suc n) [] = []
  take (suc n) (x ∷ xs) = x ∷ take n xs

  abbrev pub drop : ℕ → List A → List A
  drop zero xs = xs
  drop (suc n) [] = []
  drop (suc n) (x ∷ xs) = drop n xs

  -- `xs[a:b]` with int bounds, of a slice whose capacity is its length; `none` is its panic.
  unfoldable pub slice : List A → ℕ → ℕ → Option (List A)
  slice xs a b = if leb a b && leb b (length xs) then some (take (b - a) (drop a xs)) else none

  pub drop_all : (n : ℕ) (xs : List A) → length xs ≤ n → drop n xs ≡ []
  drop_all zero [] h = refl
  drop_all zero (x ∷ xs) h = absurd (omega arith)
  drop_all (suc n) [] h = refl
  drop_all (suc n) (x ∷ xs) h = drop_all n xs (omega arith)

  pub take_nil : (n : ℕ) → ◌≡◌ {A = List A} (take n []) []
  take_nil zero = refl
  take_nil (suc n) = refl

  pub take_more : (n k : ℕ) (xs : List A) → length xs ≤ n → length xs ≤ k → take n xs ≡ take k xs
  take_more zero zero xs h g = refl
  take_more zero (suc k) [] h g = refl
  take_more zero (suc k) (x ∷ xs) h g = absurd (omega arith)
  take_more (suc n) zero [] h g = refl
  take_more (suc n) zero (x ∷ xs) h g = absurd (omega arith)
  take_more (suc n) (suc k) [] h g = refl
  take_more (suc n) (suc k) (x ∷ xs) h g =
      ap (λ t. x ∷ t) (take_more n k xs (omega arith) (omega arith))

  pub length-drop : (n : ℕ) (xs : List A) → length (drop n xs) ≡ length xs - n
  length-drop zero xs = omega arith
  length-drop (suc n) [] = omega arith
  length-drop (suc n) (x ∷ xs) = omega (arith, length-drop n xs)

  pub slice_in :
      (xs : List A) (a b : ℕ)
      → a ≤ b
      → b ≤ length xs
      → slice xs a b ≡ some (take (b - a) (drop a xs))
  unfolding slice
  slice_in xs a b low high = ground arith

  pub slice_panics : (xs : List A) (a b : ℕ) → length xs < b → slice xs a b ≡ none
  unfolding slice
  slice_panics xs a b h = ground arith
