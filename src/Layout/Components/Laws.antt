-- ===== src/Layout/Components/Laws.antt =====
-- The split puts two nodes into one component exactly if they are connected, and loses no node.
use nodal_studio.Prelude.{
  ℕ, zero, suc, ◌<◌, String, Bool, true, ◌&&◌, ◌||◌, List, [], ◌∷◌, map, none, some, is_some, ◌≡◌,
  ◌↔◌, refl, sym, ◌∙◌, arith, Bool-cases, inl, inr, lookup, insert, lookup-insert, fold, any, ◌==◌,
  string_eq, nat_eq, contains, filter, length, Option-cases, any-sort, any-append, eqb,
}
use nodal_studio.Graph.Links.{near}
use nodal_studio.Layout.Components.{
  LayoutNodeInput, LayoutEdgeInput, LayoutComponent, Owner, Flood, Split, adjacency, is_listed,
  discover, discover_all, is_in, component_of, upto, by_size, split_layout_components,
}
use nodal_studio.Layout.Components.Connected.{Connected, here, along, near-adjacency}
use nodal_studio.Layout.Components.Flooding.{Inv, flood-Inv, owned-flood, free-length}

module _ (nodes : List LayoutNodeInput) (edges : List LayoutEdgeInput) where
  -- What the loop over the nodes keeps.
  pub record Found (s : Split) : Type 0 where
    pub sound :
        (u v : String) (j : ℕ)
        → lookup u s.by_node ≡ some j
        → lookup v s.by_node ≡ some j
        → Connected nodes edges u v
    pub closed :
        (u v : String) (j : ℕ)
        → lookup u s.by_node ≡ some j
        → near (adjacency nodes edges) u v ≡ true
        → lookup v s.by_node ≡ some j
    pub bound : (u : String) (j : ℕ) → lookup u s.by_node ≡ some j → j < s.count

  abbrev seed : Split → String → Flood
  seed s id = record { by_node = insert id s.count s.by_node; queue = id ∷ [] }

  sound_seed :
      (s : Split) (id : String)
      → Found s
      → (u v : String) (j : ℕ) → lookup u (seed s id).by_node ≡ some j
      → lookup v (seed s id).by_node ≡ some j
      → Connected nodes edges u v
  sound_seed s id f u v j a b = elim (Bool-cases (id == u)) [
    | inl p ↦ elim (Bool-cases (id == v)) [
      | inl q ↦ rw (← (string_eq.agree_iff id u).0 p, ← (string_eq.agree_iff id v).0 q) here
      | inr q ↦ absurd (
          ground (
            arith,
            lookup-insert id u s.count s.by_node,
            lookup-insert id v s.count s.by_node,
            f.bound v j,
          ))
    ]
    | inr p ↦ elim (Bool-cases (id == v)) [
      | inl q ↦ absurd (
          ground (
            arith,
            lookup-insert id u s.count s.by_node,
            lookup-insert id v s.count s.by_node,
            f.bound u j,
          ))
      | inr q ↦
          f.sound u v j (ground (arith, lookup-insert id u s.count s.by_node))
            (ground (arith, lookup-insert id v s.count s.by_node))
    ]
  ]

  Inv-seed :
      (s : Split) (id : String)
      → Found s
      → lookup id s.by_node ≡ none
      → Inv nodes edges s.count (seed s id)
  unfolding contains
  Inv-seed s id f e = record {
    sound = sound_seed s id f;
    closed = λ u v j a m q. ground (
      arith,
      lookup-insert id u s.count s.by_node,
      lookup-insert id v s.count s.by_node,
      f.closed u v j,
      string_eq.agree_iff id v,
    );
    active = λ u q. ground (arith, lookup-insert id u s.count s.by_node);
    bound = λ u j a. ground (arith, lookup-insert id u s.count s.by_node, f.bound u j);
  }

  abbrev fuel : ℕ
  fuel = suc (length nodes)

  Found-discover :
      (s : Split) (n : LayoutNodeInput)
      → Found s
      → Found (discover (adjacency nodes edges) fuel s n)
  unfolding discover contains
  Found-discover s n f = elim (Option-cases (lookup n.id s.by_node)) [
    | inr (j, e) ↦ rw e f
    | inl e ↦
        let (inv, done) =
          flood-Inv nodes edges s.count fuel (seed s n.id) (Inv-seed s n.id f e)
            (omega (arith, free-length nodes (seed s n.id).by_node)) in
        rw e (record {
          sound = inv.sound;
          closed = λ u v j a m. inv.closed u v j a m (rw done refl);
          bound = λ u j a. omega (arith, inv.bound u j a);
        })
  ]

  Found-discovers :
      (s : Split) (ns : List LayoutNodeInput)
      → Found s
      → Found (fold (discover (adjacency nodes edges) fuel) s ns)
  Found-discovers s [] f = f
  Found-discovers s (n ∷ ns) f =
      Found-discovers (discover (adjacency nodes edges) fuel s n) ns (Found-discover s n f)

  pub Found-all : Found (discover_all nodes edges)
  unfolding discover_all lookup
  Found-all =
      Found-discovers _ nodes
        (record { sound = λ u v j a b. cc; closed = λ u v j a m. cc; bound = λ u j a. cc })

  abbrev owned_in : Split → String → Bool
  owned_in s v = is_some (lookup v s.by_node)

  owned-discover :
      (s : Split) (n : LayoutNodeInput) (v : String)
      → (owned_in s v || n.id == v) ≡ true
      → owned_in (discover (adjacency nodes edges) fuel s n) v ≡ true
  unfolding discover
  owned-discover s n v h = elim (Option-cases (lookup n.id s.by_node)) [
    | inr (j, e) ↦ rw e (ground (arith, string_eq.agree_iff n.id v))
    | inl e ↦ rw e (
        owned-flood nodes edges s.count fuel (seed s n.id) v
          (ground (arith, lookup-insert n.id v s.count s.by_node)))
  ]

  owned-discovers :
      (s : Split) (ns : List LayoutNodeInput) (v : String)
      → (owned_in s v || is_listed ns v) ≡ true
      → owned_in (fold (discover (adjacency nodes edges) fuel) s ns) v ≡ true
  owned-discovers s [] v h = ground arith
  owned-discovers s (n ∷ ns) v h = ground (
    arith,
    owned-discovers (discover (adjacency nodes edges) fuel s n) ns v,
    owned-discover s n v,
  )

  -- A listed node has an owner.
  pub owner_of :
      (v : String)
      → is_listed nodes v ≡ true
      → (j : ℕ) × (lookup v (discover_all nodes edges).by_node ≡ some j)
  unfolding discover_all lookup
  owner_of v h = elim (Option-cases (lookup v (discover_all nodes edges).by_node)) [
    | inl e ↦ absurd (ground (arith, owned-discovers (record { by_node = []; count = 0 }) nodes v))
    | inr found ↦ found
  ]

  owner-Connected :
      (u v : String) (j : ℕ)
      → lookup u (discover_all nodes edges).by_node ≡ some j
      → Connected nodes edges u v
      → lookup v (discover_all nodes edges).by_node ≡ some j
  owner-Connected u v j e here = e
  owner-Connected u v j e (along {y} {z} p h) =
      Found-all.closed y z j (owner-Connected u y j e p) (near-adjacency nodes edges y z ∙ h)

any-map {ℓ κ} :
    {A : Type ℓ} {B : Type κ} (p : B → Bool) (f : A → B) (xs : List A)
    → any p (map f xs) ≡ any (λ x. p (f x)) xs
any-map p f [] = refl
any-map p f (x ∷ xs) = ground (arith, any-map p f xs)

any-upto : (p : ℕ → Bool) (n k : ℕ) → k < n → p k ≡ true → any p (upto n) ≡ true
any-upto p zero k h e = absurd (omega arith)
any-upto p (suc n) k h e = elim (Bool-cases (eqb k n)) [
  | inl same ↦ let eq : k ≡ n = ground arith in ground (arith, any-append p (upto n) (n ∷ []))
  | inr other ↦ ground (arith, any-append p (upto n) (n ∷ []), any-upto p n k)
]

upto-any : (p : ℕ → Bool) (n : ℕ) → any p (upto n) ≡ true → (k : ℕ) × (p k ≡ true)
upto-any p zero h = cc
upto-any p (suc n) h = elim (Bool-cases (p n)) [
  | inl e ↦ (n, e)
  | inr e ↦ upto-any p n (ground (arith, any-append p (upto n) (n ∷ [])))
]

listed-filter :
    (p : String → Bool) (nodes : List LayoutNodeInput) (id : String)
    → is_listed (filter (λ node. p node.id) nodes) id ≡ (is_listed nodes id && p id)
listed-filter p [] id = refl
listed-filter p (n ∷ nodes) id =
    ground (arith, listed-filter p nodes id, string_eq.agree_iff n.id id)

-- Some component has both nodes.
abbrev pub together : String → String → List LayoutComponent → Bool
together a b = any (λ c. is_listed c.nodes a && is_listed c.nodes b)

abbrev share : List LayoutNodeInput → Owner → String → String → ℕ → Bool
share nodes o a b k = (is_listed nodes a && is_in o k a) && (is_listed nodes b && is_in o k b)

any-shares :
    (nodes : List LayoutNodeInput) (edges : List LayoutEdgeInput) (o : Owner) (a b : String)
    (ks : List ℕ)
    → any
        (λ k.
          is_listed (component_of nodes edges o k).nodes a
          && is_listed (component_of nodes edges o k).nodes b)
        ks
      ≡ any (share nodes o a b) ks
unfolding component_of
any-shares nodes edges o a b [] = refl
any-shares nodes edges o a b (k ∷ ks) =
    rw
      (
        listed-filter (is_in o k) nodes a,
        listed-filter (is_in o k) nodes b,
        any-shares nodes edges o a b ks,
      )
      refl

is_in-owner : (o : Owner) (k : ℕ) (v : String) → is_in o k v ≡ true → lookup v o ≡ some k
is_in-owner o k v h = ground (arith, nat_eq.agree_iff)

owner-is_in : (o : Owner) (k : ℕ) (v : String) → lookup v o ≡ some k → is_in o k v ≡ true
owner-is_in o k v e = ground arith

together-split :
    (nodes : List LayoutNodeInput) (edges : List LayoutEdgeInput) (a b : String)
    → together a b (split_layout_components nodes edges)
      ≡ any
          (share nodes (discover_all nodes edges).by_node a b)
          (upto (discover_all nodes edges).count)
unfolding split_layout_components
together-split nodes edges a b =
    let s = discover_all nodes edges in
    any-sort by_size (λ c. is_listed c.nodes a && is_listed c.nodes b)
      (map (component_of nodes edges s.by_node) (upto s.count))
    ∙ (any-map _ (component_of nodes edges s.by_node) (upto s.count)
        ∙ any-shares nodes edges s.by_node a b (upto s.count))

-- Two listed nodes stand in one component of the split exactly if a chain of edges between listed
-- nodes joins them.
pub split_layout_components_iff :
    (nodes : List LayoutNodeInput) (edges : List LayoutEdgeInput) (a b : String)
    → is_listed nodes a ≡ true
    → is_listed nodes b ≡ true
    → (together a b (split_layout_components nodes edges) ≡ true) ↔ Connected nodes edges a b
split_layout_components_iff nodes edges a b p q =
    let s = discover_all nodes edges in
    let (j, e) = owner_of nodes edges a p in
    (
      λ h.
          let (k, m) = upto-any _ s.count (sym (together-split nodes edges a b) ∙ h) in
          (Found-all nodes edges).sound a b k (is_in-owner s.by_node k a (ground arith))
            (is_in-owner s.by_node k b (ground arith)),
      λ c.
          let f = owner-Connected nodes edges a b j e c in
          together-split nodes edges a b
          ∙ any-upto _ s.count j ((Found-all nodes edges).bound a j e)
              (ground (arith, owner-is_in s.by_node j a e, owner-is_in s.by_node j b f)),
    )
