-- ===== src/Discovery/Neighborhood/Hops.antt =====
-- The hops collect exactly the tables within reach.
use nodal_studio.Prelude.{
  ℕ, zero, suc, ◌+◌, Bool, true, ◌&&◌, ◌||◌, List, [], ◌∷◌, ◌≡◌, ◌↔◌, arith, inl, inr, Bool-cases,
  contains, contains-add, add, fold, any, ◌==◌, agree_refl,
}
use mathlib.Core.Path.{subst}
use nodal_studio.Model.{TableKey, table_key_eq}
use nodal_studio.Graph.Walks.{Within, root, hop, Within-suc}
use nodal_studio.Discovery.{KnownRelationship, object_id}
use nodal_studio.Discovery.Neighborhood.{add_ends, hop_keys}

-- The relationship leads from `u` to `v`, in one direction or the other.
abbrev pub leads : TableKey → TableKey → KnownRelationship → Bool
leads u v edge =
    (object_id edge.source == u && object_id edge.target == v)
    || (object_id edge.target == u && object_id edge.source == v)

abbrev pub linked : List KnownRelationship → TableKey → TableKey → Bool
linked relationships u v = any (leads u v) relationships

-- The relationship leads from a table of the set to `v`.
abbrev from_set : List TableKey → TableKey → KnownRelationship → Bool
from_set before v edge =
    (contains (object_id edge.source) before && object_id edge.target == v)
    || (contains (object_id edge.target) before && object_id edge.source == v)

contains-add_ends :
    (before keys : List TableKey) (edge : KnownRelationship) (v : TableKey)
    → contains v (add_ends before keys edge) ≡ (contains v keys || from_set before v edge)
unfolding add_ends
contains-add_ends before keys edge v = ground (
  arith,
  contains-add (object_id edge.target) v keys,
  contains-add (object_id edge.source) v keys,
  contains-add (object_id edge.source) v (add (object_id edge.target) keys),
)

contains-hop :
    (before keys : List TableKey) (edges : List KnownRelationship) (v : TableKey)
    → contains v (fold (add_ends before) keys edges)
      ≡ (contains v keys || any (from_set before v) edges)
contains-hop before keys [] v = ground arith
contains-hop before keys (edge ∷ edges) v = ground (
  arith,
  contains-hop before (add_ends before keys edge) edges v,
  contains-add_ends before keys edge v,
)

from_set-linked :
    (before : List TableKey) (edges : List KnownRelationship) (v : TableKey)
    → any (from_set before v) edges ≡ true
    → (u : TableKey) × (contains u before ≡ true) × (linked edges u v ≡ true)
from_set-linked before [] v h = cc
from_set-linked before (edge ∷ edges) v h = elim (Bool-cases (any (from_set before v) edges)) [
  | inl k ↦ let (u, m, l) = from_set-linked before edges v k in (u, m, ground arith)
  | inr k ↦
      elim (Bool-cases (contains (object_id edge.source) before && object_id edge.target == v)) [
        | inl p ↦ (
          object_id edge.source,
          ground arith,
          ground (arith, agree_refl (object_id edge.source)),
        )
        | inr p ↦ (
          object_id edge.target,
          ground arith,
          ground (arith, agree_refl (object_id edge.target)),
        )
      ]
]

linked-from_set :
    (before : List TableKey) (edges : List KnownRelationship) (u v : TableKey)
    → contains u before ≡ true
    → linked edges u v ≡ true
    → any (from_set before v) edges ≡ true
linked-from_set before [] u v m h = cc
linked-from_set before (edge ∷ edges) u v m h = elim (Bool-cases (linked edges u v)) [
  | inl k ↦ ground (arith, linked-from_set before edges u v m k)
  | inr k ↦ elim (Bool-cases (object_id edge.source == u && object_id edge.target == v)) [
    | inl p ↦
        let same : object_id edge.source ≡ u =
          (table_key_eq.agree_iff (object_id edge.source) u).0 (ground arith) in
        let inside : contains (object_id edge.source) before ≡ true = rw same m in ground arith
    | inr p ↦
        let same : object_id edge.target ≡ u =
          (table_key_eq.agree_iff (object_id edge.target) u).0 (ground arith) in
        let inside : contains (object_id edge.target) before ≡ true = rw same m in ground arith
  ]
]

module _ (edges : List KnownRelationship) (roots : List TableKey) where
  -- The set after `n` hops.
  abbrev Reached : ℕ → List TableKey → Type 0
  Reached n keys = (v : TableKey) → (contains v keys ≡ true) ↔ Within (linked edges) roots n v

  Reached-hop :
      (n : ℕ) (keys : List TableKey)
      → Reached n keys
      → Reached (suc n) (fold (add_ends keys) keys edges)
  Reached-hop n keys r v = (
    λ m. elim (Bool-cases (contains v keys)) [
      | inl old ↦ Within-suc ((r v).0 old)
      | inr new ↦
          let (u, listed, l) =
            from_set-linked keys edges v (ground (arith, contains-hop keys keys edges v)) in
          hop ((r u).0 listed) l
    ],
    λ w. back v w,
  )
    where
      back :
          (v : TableKey)
          → Within (linked edges) roots (suc n) v
          → contains v (fold (add_ends keys) keys edges) ≡ true
      back v (root h) = ground (arith, contains-hop keys keys edges v, (r v).1 (root h))
      back v (hop {u} w l) =
          ground
            (arith, contains-hop keys keys edges v, linked-from_set keys edges u v ((r u).1 w) l)

  Reached-hop_keys :
      (depth n : ℕ) (keys : List TableKey)
      → Reached n keys
      → Reached (depth + n) (hop_keys edges depth keys)
  unfolding hop_keys
  Reached-hop_keys zero n keys r =
      let e : n ≡ 0 + n = omega arith in subst (λ k. Reached k keys) e r
  Reached-hop_keys (suc depth) n keys r =
      let e : depth + suc n ≡ suc depth + n = omega arith in
      let next = fold (add_ends keys) keys edges in
      subst (λ k. Reached k (hop_keys edges depth next)) e
        (Reached-hop_keys depth (suc n) next (Reached-hop n keys r))

  Reached-start : Reached 0 roots
  Reached-start v = (λ m. root m, λ w. start v w)
    where
      start : (v : TableKey) → Within (linked edges) roots 0 v → contains v roots ≡ true
      start v (root h) = h

  -- Exactly the tables that a walk of at most `depth` relationships reaches are collected.
  pub hop_keys_iff :
      (depth : ℕ) (v : TableKey)
      → (contains v (hop_keys edges depth roots) ≡ true) ↔ Within (linked edges) roots depth v
  hop_keys_iff depth v =
      let e : depth + 0 ≡ depth = omega arith in
      subst
        (λ n. (contains v (hop_keys edges depth roots) ≡ true) ↔ Within (linked edges) roots n v) e
        (Reached-hop_keys depth 0 roots Reached-start v)
