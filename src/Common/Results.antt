-- ===== src/Common/Results.antt =====
-- Go's pairs of a value and an error, of which callers read one: a value or an error.
use mathlib.Core.Path.{◌≡◌, refl, subst}
use mathlib.Core.Logic.{◌⊎◌, inl, inr}

pub data Result {ℓ κ} (E : Type ℓ) (A : Type κ) : Type (ℓ ⊔ κ) where
  ok : A → Result E A
  err : E → Result E A

-- `if err != nil { return nil, err }`
infixl 5 ◌>>=◌
abbrev pub ◌>>=◌ {ℓ κ μ} :
    {E : Type ℓ} {A : Type κ} {B : Type μ} → Result E A → (A → Result E B) → Result E B
err e >>= next = err e
ok a >>= next = next a

-- `if err != nil { return nil, fmt.Errorf("...: %w", err) }`
abbrev pub within {ℓ μ κ} :
    {E : Type ℓ} {F : Type μ} {A : Type κ} → (E → F) → Result E A → Result F A
within wrap (ok a) = ok a
within wrap (err e) = err (wrap e)

-- When both calls of a chain have succeeded, and what the first one gave.
module _ {ℓ κ μ} {E : Type ℓ} {A : Type κ} {B : Type μ} (next : A → Result E B) (b : B) where
  pub >>=-eq-ok :
      (first : Result E A) → (first >>= next) ≡ ok b → (a : A) × (first ≡ ok a) × (next a ≡ ok b)
  >>=-eq-ok (err e) both = cc
  >>=-eq-ok (ok a) both = (a, refl, both)

pub within-eq-ok {ℓ μ κ} :
    {E : Type ℓ} {F : Type μ} {A : Type κ} (wrap : E → F) (r : Result E A) {a : A}
    → within wrap r ≡ ok a
    → r ≡ ok a
within-eq-ok wrap (ok b) h = cc
within-eq-ok wrap (err e) h = cc

pub Result-cases {ℓ κ} :
    {E : Type ℓ} {A : Type κ} (r : Result E A) → ((a : A) × (r ≡ ok a)) ⊎ ((e : E) × (r ≡ err e))
Result-cases (ok a) = inl (a, refl)
Result-cases (err e) = inr (e, refl)

-- What holds of a value, if there is one.
abbrev pub Gives {ℓ κ μ} : {E : Type ℓ} {A : Type κ} → (A → Type μ) → Result E A → Type μ
Gives P (ok a) = P a
Gives P (err e) = Unit

module _ {ℓ κ μ ν ρ} {E : Type ℓ} {A : Type κ} {B : Type μ} (P : A → Type ν) (Q : B → Type ρ) where
  pub >>=-Gives :
      (m : Result E A) (f : A → Result E B)
      → Gives P m
      → ((a : A) → P a → Gives Q (f a))
      → Gives Q (m >>= f)
  >>=-Gives (ok a) f h k = k a h
  >>=-Gives (err e) f h k = tt

pub Gives-ok {ℓ κ μ} :
    {E : Type ℓ} {A : Type κ} (P : A → Type μ) (m : Result E A) {a : A} → m ≡ ok a → Gives P m → P a
Gives-ok P m e h = subst (Gives P) e h

pub within-Gives {ℓ κ μ ν} :
    {E : Type ℓ} {F : Type κ} {A : Type μ} (P : A → Type ν) (wrap : E → F) (m : Result E A)
    → Gives P m
    → Gives P (within wrap m)
within-Gives P wrap (ok a) h = h
within-Gives P wrap (err e) h = tt
