-- ===== src/Prelude/Equality.antt =====
-- `===` on the values that the code compares, as an interface: numbers, texts and pairs of them.
use Prim.Native.Nat.{ℕ}
use Prim.Native.String.{String}
use mathlib.Core.Path.{◌≡◌, refl}
use mathlib.Core.Logic.{◌↔◌, ◌⊎◌, inl, inr}
use mathlib.Core.Option.{Option, none, some}
use mathlib.Core.Bool.{Bool, true, false, ◌&&◌}
use native.Mathlib.Omega.{arith}
use text.Mathlib.Text.{◌==◌ as str_eq}
use text.Mathlib.TextEquality.{eq_iff as str_eq_iff}
use nodal_studio.Prelude.Tests.{eqb, eqb_iff, Bool-cases}

-- The test and the law that it holds exactly on equal values.
pub record Eq {κ} (T : Type κ) : Type κ where
  pub agree : T → T → Bool
  pub agree_iff : (x y : T) → (agree x y ≡ true) ↔ (x ≡ y)

infix 50 ◌==◌
instance abbrev pub string_eq : Eq String
string_eq = record { agree = str_eq; agree_iff = str_eq_iff }

abbrev pub ◌==◌ {κ} : {T : Type κ} ⦃test : Eq T⦄ → T → T → Bool
◌==◌ ⦃test⦄ x y = test.agree x y

instance abbrev pub nat_eq : Eq ℕ
nat_eq = record { agree = eqb; agree_iff = eqb_iff }

module _ {ℓ κ} {A : Type ℓ} {B : Type κ} ⦃e : Eq A⦄ ⦃f : Eq B⦄ where
  abbrev pair_agree : A × B → A × B → Bool
  pair_agree (a, b) (c, d) = a == c && b == d

  pub pair_agree_iff : (p q : A × B) → (pair_agree p q ≡ true) ↔ (p ≡ q)
  pair_agree_iff (a, b) (c, d) = ground (arith, e.agree_iff a c, f.agree_iff b d)

  instance abbrev pub pair_eq : Eq (A × B)
  pair_eq = record { agree = pair_agree; agree_iff = pair_agree_iff }

module _ {ℓ} {A : Type ℓ} ⦃e : Eq A⦄ where
  abbrev option_agree : Option A → Option A → Bool
  option_agree none none = true
  option_agree (some a) (some b) = a == b
  option_agree _ _ = false

  pub option_agree_iff : (o p : Option A) → (option_agree o p ≡ true) ↔ (o ≡ p)
  option_agree_iff none none = (λ h. refl, λ h. refl)
  option_agree_iff none (some b) = ground arith
  option_agree_iff (some a) none = ground arith
  option_agree_iff (some a) (some b) = ground (arith, e.agree_iff a b)

  -- `===` where a value may be absent.
  instance abbrev pub option_eq : Eq (Option A)
  option_eq = record { agree = option_agree; agree_iff = option_agree_iff }

module _ {ℓ} {A : Type ℓ} ⦃e : Eq A⦄ where
  pub agree_refl : (a : A) → (a == a) ≡ true
  agree_refl a = (e.agree_iff a a).1 refl

  pub eq-cases : (a b : A) → (a ≡ b) × ((a == b) ≡ true) ⊎ ((a == b) ≡ false)
  eq-cases a b = elim (Bool-cases (a == b)) [
    | inl h ↦ inl ((e.agree_iff a b).0 h, h)
    | inr h ↦ inr h
  ]

  unfoldable pub Eq-discrete : Discrete A
  Eq-discrete a b = elim (Bool-cases (a == b)) [
    | inl h ↦ yes ((e.agree_iff a b).0 h)
    | inr h ↦ no (λ p. cc ((e.agree_iff a b).1 p))
  ]

module _ {ℓ} {A : Type ℓ} (d : Discrete A) where
  abbrev pub decides : (a b : A) → Bool
  decides a b = elim (d a b) [ yes h ↦ true | no h ↦ false ]

  pub decides_iff : (a b : A) → (decides a b ≡ true) ↔ (a ≡ b)
  decides_iff a b =
      elim (d a b) as (λ o. ((elim o [ yes h ↦ true | no h ↦ false ]) ≡ true) ↔ (a ≡ b)) [
        | yes h ↦ (λ _. h, λ _. refl)
        | no h ↦ (λ f. cc, λ p. absurd (h p))
      ]

  abbrev pub eq_of_discrete : Eq A
  eq_of_discrete = record { agree = decides; agree_iff = decides_iff }
