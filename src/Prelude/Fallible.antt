-- ===== src/Prelude/Fallible.antt =====
-- A fallible result of the source, `(value, error)` with exactly one of the two meaningful.
use mathlib.Core.Path.{◌≡◌, refl}
use mathlib.Core.Logic.{◌⊎◌, inl, inr}

pub data Result {ℓ₁ ℓ₂} (E : Type ℓ₁) (A : Type ℓ₂) : Type (ℓ₁ ⊔ ℓ₂) where
  err : E → Result E A
  ok : A → Result E A

pub Result-cases {ℓ₁ ℓ₂} :
    {E : Type ℓ₁} {A : Type ℓ₂} (r : Result E A) → ((e : E) × (r ≡ err e)) ⊎ ((a : A) × (r ≡ ok a))
Result-cases (err e) = inl (e, refl)
Result-cases (ok a) = inr (a, refl)
