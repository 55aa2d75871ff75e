-- ===== src/Layout/Components/Connected.antt =====
-- Connected nodes, and the adjacency map of the split.
use nodal_studio.Prelude.{
  String, Bool, true, false, ◌&&◌, ◌||◌, List, [], ◌∷◌, ◌≡◌, refl, sym, ◌∙◌, arith, Bool-cases, inl,
  inr, lookup, insert, insert_all, map, lookup-insert, fold, any, ◌==◌, string_eq, contains,
}
use nodal_studio.Graph.Links.{Adjacency, has, near, joins, has-join, near-join}
use nodal_studio.Layout.Components.{
  LayoutNodeInput, LayoutEdgeInput, is_listed, empty_sets, add_edge, adjacency,
}

-- An edge between listed nodes joins `x` and `y`.
abbrev pub edge_joins : List LayoutNodeInput → String → String → LayoutEdgeInput → Bool
edge_joins nodes x y edge =
    is_listed nodes edge.source && is_listed nodes edge.target && joins edge.source edge.target x y

-- A chain of edges between listed nodes leads from one node to the other.
pub data Connected (nodes : List LayoutNodeInput) (edges : List LayoutEdgeInput)
    : String → String → Type 0 where
  here : {x : String} → Connected nodes edges x x
  along :
      {x y z : String}
      → Connected nodes edges x y
      → any (edge_joins nodes y z) edges ≡ true
      → Connected nodes edges x z

has-start :
    (nodes : List LayoutNodeInput) (adj : Adjacency) (x : String)
    → has x (insert_all adj (map (λ node. (node.id, [])) nodes)) ≡ (has x adj || is_listed nodes x)
has-start [] adj x = ground arith
has-start (n ∷ nodes) adj x =
    ground (arith, has-start nodes (insert n.id [] adj) x, lookup-insert n.id x [] adj)

near-start :
    (nodes : List LayoutNodeInput) (adj : Adjacency) (x y : String)
    → near adj x y ≡ false
    → near (insert_all adj (map (λ node. (node.id, [])) nodes)) x y ≡ false
unfolding contains
near-start [] adj x y h = h
near-start (n ∷ nodes) adj x y h =
    near-start nodes (insert n.id [] adj) x y (ground (arith, lookup-insert n.id x [] adj))

has-add_edge :
    (nodes : List LayoutNodeInput) (adj : Adjacency) (edge : LayoutEdgeInput) (x : String)
    → has x (add_edge nodes adj edge) ≡ has x adj
unfolding add_edge
has-add_edge nodes adj edge x = ground (arith, has-join edge.source edge.target x adj)

near-add_edge :
    (nodes : List LayoutNodeInput) (adj : Adjacency) (edge : LayoutEdgeInput) (x y : String)
    → ((v : String) → is_listed nodes v ≡ true → has v adj ≡ true)
    → near (add_edge nodes adj edge) x y ≡ (near adj x y || edge_joins nodes x y edge)
unfolding add_edge
near-add_edge nodes adj edge x y h = elim (Bool-cases (is_listed nodes edge.source)) [
  | inl p ↦ elim (Bool-cases (is_listed nodes edge.target)) [
    | inl q ↦
        rw (p, q)
          (ground
            (arith, near-join edge.source edge.target x y adj (h edge.source p) (h edge.target q)))
    | inr q ↦ rw (p, q) (ground arith)
  ]
  | inr p ↦ rw p (ground arith)
]

near-add_edges :
    (nodes : List LayoutNodeInput) (edges : List LayoutEdgeInput) (adj : Adjacency) (x y : String)
    → ((v : String) → is_listed nodes v ≡ true → has v adj ≡ true)
    → near (fold (add_edge nodes) adj edges) x y
      ≡ (near adj x y || any (edge_joins nodes x y) edges)
near-add_edges nodes [] adj x y h = ground arith
near-add_edges nodes (edge ∷ edges) adj x y h = ground (
  arith,
  near-add_edges nodes edges (add_edge nodes adj edge) x y (λ v p. rw (has-add_edge) (h v p)),
  near-add_edge nodes adj edge x y h,
)

pub near-adjacency :
    (nodes : List LayoutNodeInput) (edges : List LayoutEdgeInput) (x y : String)
    → near (adjacency nodes edges) x y ≡ any (edge_joins nodes x y) edges
unfolding contains lookup
near-adjacency nodes edges x y = ground (
  arith,
  near-start nodes [] x y,
  near-add_edges nodes edges (empty_sets nodes) x y (λ v p. ground (arith, has-start nodes [] v)),
)

swap-pairs : (a b c d : Bool) → ((a && b) || (c && d)) ≡ ((d && c) || (b && a))
swap-pairs a b c d = ground arith

edge_joins_sym :
    (nodes : List LayoutNodeInput) (x y : String) (edge : LayoutEdgeInput)
    → edge_joins nodes x y edge ≡ edge_joins nodes y x edge
edge_joins_sym nodes x y edge =
    rw (swap-pairs (edge.source == x) (edge.target == y) (edge.target == x) (edge.source == y)) refl

any-joins_sym :
    (nodes : List LayoutNodeInput) (edges : List LayoutEdgeInput) (x y : String)
    → any (edge_joins nodes x y) edges ≡ true
    → any (edge_joins nodes y x) edges ≡ true
any-joins_sym nodes [] x y h = h
any-joins_sym nodes (edge ∷ edges) x y h = elim (Bool-cases (edge_joins nodes x y edge)) [
  | inl k ↦ rw (sym (edge_joins_sym nodes x y edge) ∙ k) refl
  | inr k ↦ rw (sym (edge_joins_sym nodes x y edge) ∙ k) (any-joins_sym nodes edges x y (rw k at h))
]

any-joins_listed :
    (nodes : List LayoutNodeInput) (edges : List LayoutEdgeInput) (x y : String)
    → any (edge_joins nodes x y) edges ≡ true
    → is_listed nodes y ≡ true
any-joins_listed nodes [] x y h = cc
any-joins_listed nodes (edge ∷ edges) x y h = ground (
  arith,
  any-joins_listed nodes edges x y,
  string_eq.agree_iff edge.source y,
  string_eq.agree_iff edge.target y,
)

pub near-sym :
    (nodes : List LayoutNodeInput) (edges : List LayoutEdgeInput) (x y : String)
    → near (adjacency nodes edges) x y ≡ true
    → near (adjacency nodes edges) y x ≡ true
near-sym nodes edges x y h =
    near-adjacency nodes edges y x
    ∙ any-joins_sym nodes edges x y (sym (near-adjacency nodes edges x y) ∙ h)

pub near-listed :
    (nodes : List LayoutNodeInput) (edges : List LayoutEdgeInput) (x y : String)
    → near (adjacency nodes edges) x y ≡ true
    → is_listed nodes y ≡ true
near-listed nodes edges x y h =
    any-joins_listed nodes edges x y (sym (near-adjacency nodes edges x y) ∙ h)

module _ {nodes : List LayoutNodeInput} {edges : List LayoutEdgeInput} where
  pub Connected-trans :
      {x y z : String}
      → Connected nodes edges x y
      → Connected nodes edges y z
      → Connected nodes edges x z
  Connected-trans p here = p
  Connected-trans p (along q h) = along (Connected-trans p q) h

  pub Connected-sym : {x y : String} → Connected nodes edges x y → Connected nodes edges y x
  Connected-sym here = here
  Connected-sym (along {y} {z} q h) =
      Connected-trans (along here (any-joins_sym nodes edges y z h)) (Connected-sym q)
