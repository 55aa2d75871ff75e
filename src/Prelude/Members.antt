-- ===== src/Prelude/Members.antt =====
-- Membership in lists of values that have no test of equality.
use mathlib.Core.Path.{◌≡◌, refl, ap, sym, ◌∙◌, subst}
use mathlib.Core.Logic.{inl, inr}
use mathlib.Core.Bool.{Bool, true}
use mathlib.Core.Option.{some}
use mathlib.Core.List.{List, [], ◌∷◌, map, Memᴰ}
use mathlib.Core.List.Memᴰ
use native.Mathlib.Omega.{arith}
use nodal_studio.Prelude.Tests.{Bool-cases}
use nodal_studio.Prelude.Lists.{filter, flat_map, find, any, all}

module _ {ℓ κ} {A : Type ℓ} {B : Type κ} where
  pub mem-flat_map :
      (f : A → List B) (b : B) (xs : List A)
      → Memᴰ b (flat_map f xs)
      → (a : A) × Memᴰ a xs × Memᴰ b (f a)
  mem-flat_map f b [] m = absurd (Memᴰ.not-nil m)
  mem-flat_map f b (x ∷ xs) m = elim (Memᴰ.append_cases (f x) m) [
    | inl here ↦ (x, Memᴰ.head refl, here)
    | inr later ↦ let (a, listed, k) = mem-flat_map f b xs later in (a, Memᴰ.tail listed, k)
  ]

  pub mem-flat_map_intro :
      (f : A → List B) (b : B) (a : A) (xs : List A)
      → Memᴰ a xs
      → Memᴰ b (f a)
      → Memᴰ b (flat_map f xs)
  mem-flat_map_intro f b a [] m k = absurd (Memᴰ.not-nil m)
  mem-flat_map_intro f b a (x ∷ xs) m k = elim (Memᴰ.cases_cons m) [
    | inl same ↦ Memᴰ.append_left (flat_map f xs) (subst (λ y. Memᴰ b (f y)) same k)
    | inr later ↦ Memᴰ.append_right (f x) (mem-flat_map_intro f b a xs later k)
  ]

  pub mem-map :
      (f : A → B) (b : B) (xs : List A) → Memᴰ b (map f xs) → (a : A) × Memᴰ a xs × (b ≡ f a)
  mem-map f b [] m = absurd (Memᴰ.not-nil m)
  mem-map f b (x ∷ xs) m = elim (Memᴰ.cases_cons m) [
    | inl same ↦ (x, Memᴰ.head refl, same)
    | inr later ↦ let (a, listed, k) = mem-map f b xs later in (a, Memᴰ.tail listed, k)
  ]

  pub mem-map_intro : (f : A → B) (a : A) (xs : List A) → Memᴰ a xs → Memᴰ (f a) (map f xs)
  mem-map_intro f a [] m = absurd (Memᴰ.not-nil m)
  mem-map_intro f a (x ∷ xs) m = elim (Memᴰ.cases_cons m) [
    | inl same ↦ Memᴰ.head (ap f same)
    | inr later ↦ Memᴰ.tail (mem-map_intro f a xs later)
  ]

module _ {ℓ} {A : Type ℓ} where
  pub mem-filter :
      (p : A → Bool) (a : A) (xs : List A) → Memᴰ a (filter p xs) → Memᴰ a xs × (p a ≡ true)
  mem-filter p a [] m = absurd (Memᴰ.not-nil m)
  mem-filter p a (x ∷ xs) m = elim (Bool-cases (p x)) [
    | inl h ↦ elim (Memᴰ.cases_cons (rw h at m)) [
      | inl same ↦ (Memᴰ.head same, ap p same ∙ h)
      | inr later ↦ let (listed, k) = mem-filter p a xs later in (Memᴰ.tail listed, k)
    ]
    | inr h ↦ let (listed, k) = mem-filter p a xs (rw h at m) in (Memᴰ.tail listed, k)
  ]

  pub mem-filter_intro :
      (p : A → Bool) (a : A) (xs : List A) → Memᴰ a xs → p a ≡ true → Memᴰ a (filter p xs)
  mem-filter_intro p a [] m k = absurd (Memᴰ.not-nil m)
  mem-filter_intro p a (x ∷ xs) m k = elim (Memᴰ.cases_cons m) [
    | inl same ↦ rw (sym (ap p same) ∙ k) (Memᴰ.head same)
    | inr later ↦ elim (Bool-cases (p x)) [
      | inl h ↦ rw h (Memᴰ.tail (mem-filter_intro p a xs later k))
      | inr h ↦ rw h (mem-filter_intro p a xs later k)
    ]
  ]

  pub find_sound :
      (p : A → Bool) (a : A) (xs : List A) → find p xs ≡ some a → Memᴰ a xs × (p a ≡ true)
  find_sound p a [] h = cc
  find_sound p a (x ∷ xs) h = elim (Bool-cases (p x)) [
    | inl k ↦ let same : x ≡ a = ground arith in (Memᴰ.head (sym same), ap p (sym same) ∙ k)
    | inr k ↦ let (listed, q) = find_sound p a xs (rw k at h) in (Memᴰ.tail listed, q)
  ]

  pub all_mem : (p : A → Bool) (a : A) (xs : List A) → all p xs ≡ true → Memᴰ a xs → p a ≡ true
  all_mem p a [] h m = absurd (Memᴰ.not-nil m)
  all_mem p a (x ∷ xs) h m = elim (Memᴰ.cases_cons m) [
    | inl same ↦ rw same (ground arith)
    | inr later ↦ all_mem p a xs (ground arith) later
  ]

  pub any_intro : (p : A → Bool) (a : A) (xs : List A) → Memᴰ a xs → p a ≡ true → any p xs ≡ true
  any_intro p a [] m k = absurd (Memᴰ.not-nil m)
  any_intro p a (x ∷ xs) m k = elim (Memᴰ.cases_cons m) [
    | inl same ↦ rw (← same) (ground arith)
    | inr later ↦ ground (arith, any_intro p a xs later k)
  ]

  pub any_elim : (p : A → Bool) (xs : List A) → any p xs ≡ true → (a : A) × Memᴰ a xs × (p a ≡ true)
  any_elim p [] h = cc
  any_elim p (x ∷ xs) h = elim (Bool-cases (p x)) [
    | inl k ↦ (x, Memᴰ.head refl, k)
    | inr k ↦ let (a, listed, q) = any_elim p xs (ground arith) in (a, Memᴰ.tail listed, q)
  ]
