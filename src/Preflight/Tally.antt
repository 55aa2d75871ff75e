-- ===== src/Preflight/Tally.antt =====
-- How many entries of a list pass a test: what the counts of preflight/schema-preflight.ts are compared with.
use nodal_studio.Prelude.{
  ℕ, Bool, true, false, List, [], ◌∷◌, ◌++◌, ◌+◌, ◌≡◌, refl, arith, place, sort, Bool-cases, inl,
  inr,
}

abbrev pub one_if : Bool → ℕ
one_if true = 1
one_if false = 0

abbrev pub count {ℓ} : {A : Type ℓ} → (A → Bool) → List A → ℕ
count p [] = 0
count p (x ∷ xs) = one_if (p x) + count p xs

module _ {ℓ} {A : Type ℓ} (p : A → Bool) where
  pub count-append : (xs ys : List A) → count p (xs ++ ys) ≡ count p xs + count p ys
  count-append [] ys = omega arith
  count-append (x ∷ xs) ys = omega (arith, count-append xs ys)

  module _ (before : A → A → Bool) where
    count-place : (x : A) (xs : List A) → count p (place before x xs) ≡ one_if (p x) + count p xs
    unfolding place
    count-place x [] = refl
    count-place x (y ∷ ys) = elim (Bool-cases (before x y)) [
      | inl h ↦ rw h refl
      | inr h ↦ rw h (omega (arith, count-place x ys))
    ]

    pub count-sort : (xs : List A) → count p (sort before xs) ≡ count p xs
    unfolding sort
    count-sort [] = refl
    count-sort (x ∷ xs) = omega (arith, count-place x (sort before xs), count-sort xs)
