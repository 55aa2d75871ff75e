-- ===== src/Prelude/Sorting.antt =====
-- `array.sort`, which is stable: an element goes before the later ones that do not compare below it.
use Prim.Native.Nat.{suc}
use mathlib.Core.Path.{◌≡◌, refl, ap, ◌∙◌}
use mathlib.Core.Logic.{inl, inr}
use mathlib.Core.Bool.{Bool, true, false, ◌&&◌, ◌||◌}
use mathlib.Core.List.{List, [], ◌∷◌, Perm}
use mathlib.Core.List.Perm
use native.Mathlib.Omega.{arith}
use nodal_studio.Prelude.Tests.{if◌then◌else◌, Bool-cases}
use nodal_studio.Prelude.Lists.{length, any, all, filter}

module _ {ℓ} {A : Type ℓ} (before : A → A → Bool) where
  -- `before x y` says that the comparator returns at most 0.
  unfoldable pub place : A → List A → List A
  place x [] = x ∷ []
  place x (y ∷ ys) = if before x y then x ∷ y ∷ ys else y ∷ place x ys

  unfoldable pub sort : List A → List A
  unfolding place
  sort [] = []
  sort (x ∷ xs) = place x (sort xs)

  -- The head comes before all that follow.
  abbrev pub IsSorted : List A → Type 0
  IsSorted [] = Unit
  IsSorted (x ∷ xs) = (all (before x) xs ≡ true) × IsSorted xs

  place-perm : (x : A) (xs : List A) → Perm (place x xs) (x ∷ xs)
  unfolding place
  place-perm x [] = Perm.refl _
  place-perm x (y ∷ ys) = elim (Bool-cases (before x y)) [
    | inl h ↦ rw h (Perm.refl _)
    | inr h ↦ rw h (Perm.trans (Perm.cons y (place-perm x ys)) (Perm.swap x y ys))
  ]

  pub sort-perm : (xs : List A) → Perm (sort xs) xs
  unfolding sort
  sort-perm [] = Perm.refl _
  sort-perm (x ∷ xs) = Perm.trans (place-perm x (sort xs)) (Perm.cons x (sort-perm xs))

  any-place : (p : A → Bool) (x : A) (xs : List A) → any p (place x xs) ≡ (p x || any p xs)
  unfolding place
  any-place p x [] = refl
  any-place p x (y ∷ ys) = ground (arith, any-place p x ys)

  pub any-sort : (p : A → Bool) (xs : List A) → any p (sort xs) ≡ any p xs
  unfolding sort
  any-sort p [] = refl
  any-sort p (x ∷ xs) = ground (arith, any-place p x (sort xs), any-sort p xs)

  all-place : (p : A → Bool) (x : A) (xs : List A) → all p (place x xs) ≡ (p x && all p xs)
  unfolding place
  all-place p x [] = refl
  all-place p x (y ∷ ys) = ground (arith, all-place p x ys)

  pub all-sort : (p : A → Bool) (xs : List A) → all p (sort xs) ≡ all p xs
  unfolding sort
  all-sort p [] = refl
  all-sort p (x ∷ xs) = ground (arith, all-place p x (sort xs), all-sort p xs)

  length-place : (x : A) (xs : List A) → length (place x xs) ≡ suc (length xs)
  unfolding place
  length-place x [] = refl
  length-place x (y ∷ ys) = ground (arith, length-place x ys)

  pub length-sort : (xs : List A) → length (sort xs) ≡ length xs
  unfolding sort
  length-sort [] = refl
  length-sort (x ∷ xs) = length-place x (sort xs) ∙ ap suc (length-sort xs)

  module _ (total : (x y : A) → before x y ≡ false → before y x ≡ true)
      (transitive : (x y z : A) → before x y ≡ true → before y z ≡ true → before x z ≡ true) where
    all-transitive :
        (x y : A) (ys : List A)
        → before x y ≡ true
        → all (before y) ys ≡ true
        → all (before x) ys ≡ true
    all-transitive x y [] h k = refl
    all-transitive x y (z ∷ zs) h k = ground (arith, transitive x y z h, all-transitive x y zs h)

    place-IsSorted : (x : A) (xs : List A) → IsSorted xs → IsSorted (place x xs)
    unfolding place
    place-IsSorted x [] h = (refl, tt)
    place-IsSorted x (y ∷ ys) (h, hs) = elim (Bool-cases (before x y)) [
      | inl k ↦ rw k (ground (arith, all-transitive x y ys k h), (h, hs))
      | inr k ↦
          rw k (ground (arith, all-place (before y) x ys, total x y k), place-IsSorted x ys hs)
    ]

    pub sort-IsSorted : (xs : List A) → IsSorted (sort xs)
    unfolding sort
    sort-IsSorted [] = tt
    sort-IsSorted (x ∷ xs) = place-IsSorted x (sort xs) (sort-IsSorted xs)

    place_front : (x : A) (xs : List A) → all (before x) xs ≡ true → place x xs ≡ x ∷ xs
    unfolding place
    place_front x [] h = refl
    place_front x (y ∷ ys) h = ground arith

    all-filter : (p q : A → Bool) (xs : List A) → all q xs ≡ true → all q (filter p xs) ≡ true
    all-filter p q [] h = refl
    all-filter p q (x ∷ xs) h = ground (arith, all-filter p q xs)

    filter-place :
        (p : A → Bool) (x : A) (xs : List A)
        → IsSorted xs
        → filter p (place x xs) ≡ (if p x then place x (filter p xs) else filter p xs)
    unfolding place
    filter-place p x [] h = refl
    filter-place p x (y ∷ ys) (h, hs) = elim (Bool-cases (before x y)) [
      | inl k ↦ ground (
        arith,
        place_front x (filter p (y ∷ ys)),
        all-filter p (before x) ys,
        all-transitive x y ys k h,
      )
      | inr k ↦ ground (arith, filter-place p x ys hs)
    ]

    -- Filtering before or after sorting gives the same list.
    pub filter-sort : (p : A → Bool) (xs : List A) → filter p (sort xs) ≡ sort (filter p xs)
    unfolding sort
    filter-sort p [] = refl
    filter-sort p (x ∷ xs) =
        ground (arith, filter-place p x (sort xs) (sort-IsSorted xs), filter-sort p xs)
