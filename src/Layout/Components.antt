-- ===== src/Layout/Components.antt =====
-- graph/layout-components.ts, `splitLayoutComponents`: the connected components of a diagram.
-- `byNode` maps an id to the number of its component in the order of discovery, where the code keeps
-- the component itself. Sizes are numbers of pixels, which the split only passes on.
pub mod Flooding
pub mod Connected
pub mod Laws
pub mod Sizes
use nodal_studio.Prelude.{
  ℕ, zero, suc, String, Bool, true, false, not, ◌&&◌, List, [], ◌∷◌, ◌++◌, map, Option, none, some,
  is_some, lookup, insert, fold, filter, length, leb, if◌then◌else◌, ◌==◌, nat_eq, string_eq,
  of_pairs, sort,
}
use nodal_studio.Graph.Links.{Adjacency, neighbors, join}

pub record LayoutNodeInput : Type 0 where
  pub id : String
  pub width : ℕ
  pub height : ℕ

pub record LayoutEdgeInput : Type 0 where
  pub id : String
  pub source : String
  pub target : String

pub record LayoutComponent : Type 0 where
  pub nodes : List LayoutNodeInput
  pub edges : List LayoutEdgeInput

abbrev pub Owner : Type 0
Owner = List (String × ℕ)

-- `nodeMap.has(id)`
abbrev pub is_listed : List LayoutNodeInput → String → Bool
is_listed [] id = false
is_listed (node ∷ nodes) id = if node.id == id then true else is_listed nodes id

-- `new Map(nodes.map((node) => [node.id, new Set()]))`
abbrev pub empty_sets : List LayoutNodeInput → Adjacency
empty_sets nodes = of_pairs (map (λ node. (node.id, [])) nodes)

-- The loop over the edges.
unfoldable pub add_edge : List LayoutNodeInput → Adjacency → LayoutEdgeInput → Adjacency
add_edge nodes adj edge =
    if not (is_listed nodes edge.source)
    then adj
    else if not (is_listed nodes edge.target)
    then adj
    else join edge.source edge.target adj

abbrev pub adjacency : List LayoutNodeInput → List LayoutEdgeInput → Adjacency
adjacency nodes edges = fold (add_edge nodes) (empty_sets nodes) edges

-- `byNode`, and the part of `queue` from `head` on.
pub record Flood : Type 0 where
  pub by_node : Owner
  pub queue : List String

abbrev pub owned : String → Flood → Bool
owned id s = is_some (lookup id s.by_node)

-- The body of `for (const related of ...)`.
unfoldable pub reach : ℕ → Flood → String → Flood
reach component s related =
    if owned related s
    then s
    else record { by_node = insert related component s.by_node; queue = s.queue ++ related ∷ [] }

-- The loop over the queue.
unfoldable pub flood : Adjacency → ℕ → ℕ → Flood → Flood
unfolding reach
flood adj component zero s = s
flood adj component (suc fuel) s = elim s.queue [
  | [] ↦ s
  | id ∷ rest ↦
      flood adj component fuel
        (fold (reach component) (record s { queue = rest }) (neighbors adj id))
]

-- `byNode` and the number of components.
pub record Split : Type 0 where
  pub by_node : Owner
  pub count : ℕ

-- The loop over the nodes; each enters the queue once, so `fuel` is their number.
unfoldable pub discover : Adjacency → ℕ → Split → LayoutNodeInput → Split
unfolding flood
discover adj fuel s node = if is_some (lookup node.id s.by_node) then s else record {
  by_node =
      (flood adj s.count fuel
        (record { by_node = insert node.id s.count s.by_node; queue = node.id ∷ [] })).by_node;
  count = suc s.count;
}

unfoldable pub discover_all : List LayoutNodeInput → List LayoutEdgeInput → Split
unfolding discover add_edge
discover_all nodes edges =
    fold (discover (adjacency nodes edges) (suc (length nodes)))
      (record { by_node = []; count = 0 }) nodes

abbrev pub is_in : Owner → ℕ → String → Bool
is_in by_node k id = elim (lookup id by_node) [ none ↦ false | some j ↦ j == k ]

-- What the last loops push into component `k`: its nodes, and the edges with both ends in it.
unfoldable pub component_of :
    List LayoutNodeInput → List LayoutEdgeInput → Owner → ℕ → LayoutComponent
component_of nodes edges by_node k = record {
  nodes = filter (λ node. is_in by_node k node.id) nodes;
  edges = filter (λ edge. is_in by_node k edge.source && is_in by_node k edge.target) edges;
}

abbrev pub upto : ℕ → List ℕ
upto zero = []
upto (suc n) = upto n ++ n ∷ []

-- The components by their number of nodes, the largest first.
abbrev pub by_size : LayoutComponent → LayoutComponent → Bool
by_size left right = leb (length right.nodes) (length left.nodes)

unfoldable pub split_layout_components :
    List LayoutNodeInput → List LayoutEdgeInput → List LayoutComponent
unfolding discover_all component_of sort
split_layout_components nodes edges =
    let split = discover_all nodes edges in
    sort by_size (map (component_of nodes edges split.by_node) (upto split.count))
