-- ===== src/Graph/Diagram/Orient.antt =====
-- graph/schema-graph.ts, `orientFieldEdges`: the sides at which edges leave and enter their tables. Positions and their
-- arithmetic are those of floating-point numbers, a parameter. Every edge of the model has
-- its `data`.
pub mod Laws
use nodal_studio.Prelude.{
  String, Bool, true, false, ◌&&◌, ◌||◌, List, [], ◌∷◌, Option, none, some, map, lookup, of_pairs,
  insert, ◌==◌, string_eq, if◌then◌else◌, ◌≡◌, refl, sym, ap, ◌∙◌, Option-cases, Bool-cases, inl,
  inr, arith, ℕ,
}
use nodal_studio.Graph.Diagram.{FieldEdge, FieldEdgeData, PortType, Side}
use nodal_studio.Graph.Diagram.Labels.{field_handle_id, table_handle_id}

pub record Numbers (Num : Type 0) : Type 0 where
  pub number : ℕ → Num
  pub subtract : Num → Num → Num
  pub absolute : Num → Num
  pub less : Num → Num → Bool

pub record Place (Num : Type 0) : Type 0 where
  pub id : String
  pub x : Num
  pub y : Num

abbrev pub opposite : Side → Side
opposite Side.left = Side.right
opposite Side.right = Side.left

abbrev pub handle_at : FieldEdge → PortType → String → Side → String
handle_at edge kind column side =
    if edge.details.field_level then field_handle_id kind column side else table_handle_id kind side

module _ {Num : Type 0} (numbers : Numbers Num) where
  -- `verticallyAligned`
  abbrev pub is_aligned : Place Num → Place Num → Bool
  is_aligned source target =
      numbers.less (numbers.absolute (numbers.subtract source.x target.x)) (numbers.number 80)

  abbrev pub source_side : Place Num → Place Num → Side
  source_side source target =
      if is_aligned source target || numbers.less source.x target.x then Side.right else Side.left

  abbrev pub target_side : Place Num → Place Num → Side
  target_side source target =
      if is_aligned source target then Side.right else opposite (source_side source target)

  unfoldable pub orient_edge : Place Num → Place Num → FieldEdge → FieldEdge
  unfolding field_handle_id
  orient_edge source target edge =
      let source_handle =
        handle_at edge PortType.source edge.details.source_column (source_side source target) in
      let target_handle =
        handle_at edge PortType.target edge.details.target_column (target_side source target) in
      if edge.source_handle == source_handle && edge.target_handle == target_handle
      then edge
      else record edge { source_handle = source_handle; target_handle = target_handle }

  abbrev pub place_edge : List (String × Place Num) → FieldEdge → FieldEdge
  place_edge positions edge = elim (lookup edge.source positions) [
    | none ↦ edge
    | some source ↦ elim (lookup edge.target positions) [
      | none ↦ edge
      | some target ↦ orient_edge source target edge
    ]
  ]

  unfoldable pub orient_field_edges : List FieldEdge → List (Place Num) → List FieldEdge
  unfolding orient_edge lookup insert
  orient_field_edges edges nodes =
      map (place_edge (of_pairs (map (λ node. (node.id, node)) nodes))) edges
