-- ===== src/Prelude/Maps.antt =====
-- `Map` of ECMAScript with absent keys as `none`: an association list in the order of insertion;
-- `set` on a key that is present keeps its place.
use mathlib.Core.Path.{◌≡◌, refl}
use mathlib.Core.Option.{Option, none, some}
use mathlib.Core.List.{List, [], ◌∷◌, map}
use mathlib.Core.Bool.{Bool, true}
use native.Mathlib.Omega.{arith}
use nodal_studio.Prelude.Tests.{if◌then◌else◌, is_some}
use nodal_studio.Prelude.Lists.{fold, all}
use nodal_studio.Prelude.Equality.{Eq, ◌==◌}
use nodal_studio.Prelude.Sets.{contains}

module _ {ℓ κ} {K : Type ℓ} {V : Type κ} ⦃e : Eq K⦄ where
  unfoldable pub lookup : K → List (K × V) → Option V
  lookup key [] = none
  lookup key ((at, value) ∷ m) = if at == key then some value else lookup key m

  unfoldable pub insert : K → V → List (K × V) → List (K × V)
  insert key value [] = (key, value) ∷ []
  insert key value ((at, old) ∷ m) =
      if at == key then (at, value) ∷ m else (at, old) ∷ insert key value m

  abbrev pub keys : List (K × V) → List K
  keys = map (λ p. p.0)

  abbrev pub insert_all : List (K × V) → List (K × V) → List (K × V)
  insert_all = fold (λ m p. insert p.0 p.1 m)

  -- `new Map(pairs)`
  abbrev pub of_pairs : List (K × V) → List (K × V)
  of_pairs = insert_all []

  pub lookup-insert :
      (new key : K) (value : V) (m : List (K × V))
      → lookup key (insert new value m) ≡ (if new == key then some value else lookup key m)
  unfolding lookup insert
  lookup-insert new key value [] = refl
  lookup-insert new key value ((at, old) ∷ m) = ground (
    arith,
    lookup-insert new key value m,
    e.agree_iff new key,
    e.agree_iff at new,
    e.agree_iff at key,
  )

  pub is_some-lookup : (k : K) (m : List (K × V)) → is_some (lookup k m) ≡ contains k (keys m)
  unfolding lookup contains
  is_some-lookup k [] = refl
  is_some-lookup k ((j, v) ∷ m) = ground (arith, is_some-lookup k m)

  -- What holds of every value before an insertion, and of the new value, holds after it.
  pub all-insert :
      (q : V → Bool) (k : K) (v : V) (m : List (K × V))
      → q v ≡ true
      → all (λ p. q p.1) m ≡ true
      → all (λ p. q p.1) (insert k v m) ≡ true
  unfolding insert
  all-insert q k v [] h hs = ground arith
  all-insert q k v ((j, w) ∷ m) h hs = ground (arith, all-insert q k v m h)

  pub all-insert_all :
      (q : V → Bool) (m ps : List (K × V))
      → all (λ p. q p.1) m ≡ true
      → all (λ p. q p.1) ps ≡ true
      → all (λ p. q p.1) (insert_all m ps) ≡ true
  all-insert_all q m [] h hs = h
  all-insert_all q m ((k, v) ∷ ps) h hs =
      all-insert_all q (insert k v m) ps (all-insert q k v m (ground arith) h) (ground arith)

  -- `map.delete(key)`
  unfoldable pub remove : K → List (K × V) → List (K × V)
  remove key [] = []
  remove key ((at, value) ∷ m) = if at == key then remove key m else (at, value) ∷ remove key m
