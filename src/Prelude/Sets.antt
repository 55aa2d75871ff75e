-- ===== src/Prelude/Sets.antt =====
-- `Set` of ECMAScript: a list without repetition, in the order of insertion. Membership is the
-- Boolean test `contains`, which is also `array.includes`.
use mathlib.Core.Path.{◌≡◌, refl}
use mathlib.Core.Bool.{Bool, true, false, not, ◌&&◌, ◌||◌}
use mathlib.Core.List.{List, [], ◌∷◌, ◌++◌}
use native.Mathlib.Omega.{arith}
use nodal_studio.Prelude.Tests.{if◌then◌else◌}
use nodal_studio.Prelude.Lists.{fold, filter, all}
use nodal_studio.Prelude.Equality.{Eq, ◌==◌}

module _ {ℓ} {A : Type ℓ} ⦃e : Eq A⦄ where
  unfoldable pub contains : A → List A → Bool
  contains a [] = false
  contains a (x ∷ xs) = x == a || contains a xs

  -- `set.add(a)`
  unfoldable pub add : A → List A → List A
  add a s = if contains a s then s else s ++ a ∷ []

  -- `for (const a of xs) set.add(a)`
  abbrev pub add_all : List A → List A → List A
  add_all = fold (λ s a. add a s)

  -- `new Set(xs)`
  abbrev pub of_list : List A → List A
  of_list = add_all []

  -- The set's elements are pairwise distinct.
  unfoldable pub is_set : List A → Bool
  unfolding contains
  is_set [] = true
  is_set (x ∷ xs) = not (contains x xs) && is_set xs

  pub contains-append :
      (a : A) (xs ys : List A) → contains a (xs ++ ys) ≡ (contains a xs || contains a ys)
  unfolding contains
  contains-append a [] ys = refl
  contains-append a (x ∷ xs) ys = ground (arith, contains-append a xs ys)

  pub contains-add : (a b : A) (s : List A) → contains b (add a s) ≡ (contains b s || a == b)
  unfolding contains add
  contains-add a b s = ground (arith, contains-append b s (a ∷ []), e.agree_iff a b)

  pub contains-add_all :
      (b : A) (s xs : List A) → contains b (add_all s xs) ≡ (contains b s || contains b xs)
  unfolding contains
  contains-add_all b s [] = ground arith
  contains-add_all b s (x ∷ xs) =
      ground (arith, contains-add_all b (add x s) xs, contains-add x b s)

  pub contains-of_list : (b : A) (xs : List A) → contains b (of_list xs) ≡ contains b xs
  unfolding contains
  contains-of_list b xs = contains-add_all b [] xs

  pub is_set-append_one :
      (s : List A) (a : A) → is_set s ≡ true → contains a s ≡ false → is_set (s ++ a ∷ []) ≡ true
  unfolding is_set
  is_set-append_one [] a h k = refl
  is_set-append_one (x ∷ xs) a h k = ground (
    arith,
    is_set-append_one xs a,
    contains-append x xs (a ∷ []),
    e.agree_iff a x,
    e.agree_iff x a,
  )

  pub is_set-add : (a : A) (s : List A) → is_set s ≡ true → is_set (add a s) ≡ true
  unfolding add
  is_set-add a s h = ground (arith, is_set-append_one s a)

  pub is_set-add_all : (s xs : List A) → is_set s ≡ true → is_set (add_all s xs) ≡ true
  is_set-add_all s [] h = h
  is_set-add_all s (x ∷ xs) h = is_set-add_all (add x s) xs (is_set-add x s h)

  pub contains-filter :
      (p : A → Bool) (a : A) (xs : List A) → contains a (filter p xs) ≡ (contains a xs && p a)
  unfolding contains
  contains-filter p a [] = refl
  contains-filter p a (x ∷ xs) = ground (arith, contains-filter p a xs, e.agree_iff x a)

  pub all-append : (p : A → Bool) (xs ys : List A) → all p (xs ++ ys) ≡ (all p xs && all p ys)
  all-append p [] ys = ground arith
  all-append p (x ∷ xs) ys = ground (arith, all-append p xs ys)

  all-contains :
      (p : A → Bool) (a : A) (xs : List A) → all p xs ≡ true → contains a xs ≡ true → p a ≡ true
  unfolding contains
  all-contains p a [] h k = cc
  all-contains p a (x ∷ xs) h k = ground (arith, all-contains p a xs, e.agree_iff x a)

  all-add : (p : A → Bool) (a : A) (s : List A) → all p (add a s) ≡ (all p s && p a)
  unfolding add
  all-add p a s = ground (arith, all-append p s (a ∷ []), all-contains p a s)

  pub all-add_all : (p : A → Bool) (s xs : List A) → all p (add_all s xs) ≡ (all p s && all p xs)
  all-add_all p s [] = ground arith
  all-add_all p s (x ∷ xs) = ground (arith, all-add_all p (add x s) xs, all-add p x s)
