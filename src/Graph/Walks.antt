-- ===== src/Graph/Walks.antt =====
-- Walks of a bounded number of steps from a set of roots.
use nodal_studio.Prelude.{ℕ, suc, Bool, true, List, ◌≡◌, contains, Eq}

-- A walk of at most that many links leads from a root to `v`.
pub data Within {A : Type 0} ⦃e : Eq A⦄ (link : A → A → Bool) (roots : List A)
    : ℕ → A → Type 0 where
  root : {n : ℕ} {v : A} → contains v roots ≡ true → Within link roots n v
  hop : {n : ℕ} {u v : A} → Within link roots n u → link u v ≡ true → Within link roots (suc n) v

module _ {A : Type 0} ⦃e : Eq A⦄ {roots : List A} where
  pub Within-suc :
      {link : A → A → Bool} {n : ℕ} {v : A} → Within link roots n v → Within link roots (suc n) v
  Within-suc (root h) = root h
  Within-suc (hop w k) = hop (Within-suc w) k

  pub Within-map :
      {link other : A → A → Bool} {n : ℕ} {v : A}
      → ((x y : A) → link x y ≡ true → other x y ≡ true)
      → Within link roots n v
      → Within other roots n v
  Within-map f (root h) = root h
  Within-map f (hop {u} {v} w k) = hop (Within-map f w) (f u v k)
