-- ===== src/Layout/Components/Sizes.antt =====
-- The split loses and repeats no node, and its components stand by size.
use nodal_studio.Prelude.{
  ℕ, zero, suc, ◌+◌, ◌<◌, String, true, List, [], ◌∷◌, ◌++◌, map, some, ◌≡◌, refl, ◌∙◌, arith,
  lookup, filter, length, if◌then◌else◌, sort, IsSorted, sort-IsSorted, place, leb, nat_eq,
  string_eq, agree_refl,
}
use nodal_studio.Layout.Components.{
  LayoutNodeInput, LayoutEdgeInput, LayoutComponent, Owner, discover_all, is_in, component_of, upto,
  by_size, split_layout_components, is_listed,
}
use nodal_studio.Layout.Components.Laws.{Found-all, owner_of}

-- The number of nodes in all components.
abbrev pub total : List LayoutComponent → ℕ
total [] = 0
total (c ∷ cs) = length c.nodes + total cs

total-place :
    (c : LayoutComponent) (cs : List LayoutComponent)
    → total (place by_size c cs) ≡ length c.nodes + total cs
unfolding place
total-place c [] = refl
total-place c (d ∷ cs) = ground (arith, total-place c cs)

total-sort : (cs : List LayoutComponent) → total (sort by_size cs) ≡ total cs
unfolding sort
total-sort [] = refl
total-sort (c ∷ cs) = omega (arith, total-place c (sort by_size cs), total-sort cs)

-- The same over component numbers.
abbrev sum : (ℕ → ℕ) → List ℕ → ℕ
sum f [] = 0
sum f (k ∷ ks) = f k + sum f ks

abbrev held : List LayoutNodeInput → Owner → ℕ → ℕ
held nodes o k = length (filter (λ node. is_in o k node.id) nodes)

total-components :
    (nodes : List LayoutNodeInput) (edges : List LayoutEdgeInput) (o : Owner) (ks : List ℕ)
    → total (map (component_of nodes edges o) ks) ≡ sum (held nodes o) ks
unfolding component_of
total-components nodes edges o [] = refl
total-components nodes edges o (k ∷ ks) = omega (arith, total-components nodes edges o ks)

abbrev one : Owner → String → ℕ → ℕ
one o id k = if is_in o k id then 1 else 0

sum-held :
    (n : LayoutNodeInput) (nodes : List LayoutNodeInput) (o : Owner) (ks : List ℕ)
    → sum (held (n ∷ nodes) o) ks ≡ sum (one o n.id) ks + sum (held nodes o) ks
sum-held n nodes o [] = refl
sum-held n nodes o (k ∷ ks) = ground (arith, sum-held n nodes o ks)

sum-append : (f : ℕ → ℕ) (ks ls : List ℕ) → sum f (ks ++ ls) ≡ sum f ks + sum f ls
sum-append f [] ls = omega arith
sum-append f (k ∷ ks) ls = omega (arith, sum-append f ks ls)

sum-held_none : (o : Owner) (ks : List ℕ) → sum (held [] o) ks ≡ 0
sum-held_none o [] = refl
sum-held_none o (k ∷ ks) = omega (arith, sum-held_none o ks)

-- Below its owner's number a node is counted nowhere, past it once.
sum-one :
    (o : Owner) (id : String) (j n : ℕ)
    → lookup id o ≡ some j
    → sum (one o id) (upto n) ≡ (if leb n j then 0 else 1)
sum-one o id j zero e = ground arith
sum-one o id j (suc n) e =
    ground (arith, sum-one o id j n e, sum-append (one o id) (upto n) (n ∷ []))

sum-all :
    (o : Owner) (count : ℕ) (nodes : List LayoutNodeInput)
    → ((id : String) → is_listed nodes id ≡ true → (j : ℕ) × (lookup id o ≡ some j) × (j < count))
    → sum (held nodes o) (upto count) ≡ length nodes
sum-all o count [] h = sum-held_none o (upto count)
sum-all o count (n ∷ nodes) h =
    let (j, e, below) = h n.id (ground (arith, agree_refl n.id)) in
    ground (
      arith,
      sum-held n nodes o (upto count),
      sum-one o n.id j count e,
      sum-all o count nodes (λ id p. h id (ground arith)),
    )

-- The components of a split have as many nodes together as there are nodes, and no component
-- follows a smaller one.
pub total-split_layout_components :
    (nodes : List LayoutNodeInput) (edges : List LayoutEdgeInput)
    → (total (split_layout_components nodes edges) ≡ length nodes)
      × IsSorted by_size (split_layout_components nodes edges)
unfolding split_layout_components
total-split_layout_components nodes edges =
    let s = discover_all nodes edges in
    let components = map (component_of nodes edges s.by_node) (upto s.count) in
    (
      total-sort components
          ∙ (total-components nodes edges s.by_node (upto s.count)
              ∙ sum-all s.by_node s.count nodes (λ id p.
                let (j, e) = owner_of nodes edges id p in
                (j, e, (Found-all nodes edges).bound id j e))),
      sort-IsSorted by_size (λ x y h. ground arith) (λ x y z h k. ground arith) components,
    )
