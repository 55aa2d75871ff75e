-- ===== src/Prelude/Attempts.antt =====
-- Code that throws an error: the message, or the value that is returned.
use Prim.Native.String.{String}
use mathlib.Core.Path.{◌≡◌, ap, refl}
use mathlib.Core.Logic.{◌⊎◌, inl, inr}
use mathlib.Core.Bool.{Bool, true, false}

pub data Attempt {ℓ} (A : Type ℓ) : Type ℓ where
  thrown : String → Attempt A
  returned : A → Attempt A

abbrev value_or {ℓ} : {A : Type ℓ} → A → Attempt A → A
value_or d (thrown message) = d
value_or d (returned a) = a

pub returned_injective {ℓ} : {A : Type ℓ} {a b : A} → returned a ≡ returned b → a ≡ b
returned_injective {a} h = ap (value_or a) h

abbrev pub is_returned {ℓ} : {A : Type ℓ} → Attempt A → Bool
is_returned (thrown message) = false
is_returned (returned a) = true

pub Attempt-cases {ℓ} :
    {A : Type ℓ} (o : Attempt A)
    → ((message : String) × (o ≡ thrown message)) ⊎ ((a : A) × (o ≡ returned a))
Attempt-cases (thrown message) = inl (message, refl)
Attempt-cases (returned a) = inr (a, refl)
