-- ===== src/Graph/Diagram/Build.antt =====
-- graph/schema-graph.ts: `buildSchemaGraph`.
use nodal_studio.Prelude.{
  String, Bool, true, false, not, List, [], ◌∷◌, ◌++◌, Option, none, some, or_else, is_some, map,
  filter, length, leb, if◌then◌else◌, string_eq,
}
use nodal_studio.Model.{DatabaseSnapshot, LogicalRelationship, LogicalRelationshipStatus}
use nodal_studio.Graph.Related.{related_table_ids}
use nodal_studio.Graph.Inference.{InferredRelationship}
use nodal_studio.Graph.Comparison.{ComparisonTable, comparing_changes}
use nodal_studio.Graph.Comparison.Tables.{comparison_tables}
use nodal_studio.Graph.Diagram.{
  SchemaGraphOptions, SchemaGraph, TableNode, FieldEdge, is_on, is_not_off, is_given,
}
use nodal_studio.Graph.Diagram.Shown.{
  Host, listed, after_tables, shown_logical, included_ids, shown_tables, shown_inferred,
  column_maps,
}
use nodal_studio.Graph.Diagram.Nodes.{nodes_of, seed_canvas_geometry}
use nodal_studio.Graph.Diagram.Edges.{Drawing, physical_edges, physical_keys}
use nodal_studio.Graph.Diagram.Added.{
  logical_edges, logical_keys, available_inferred, inferred_edge,
}

-- `highlightedRelationshipIds`
unfoldable pub highlighted_ids :
    List ComparisonTable → SchemaGraphOptions → List LogicalRelationship → Option (List String)
highlighted_ids tables options logical = elim options.selected_node_id [
  | none ↦ none
  | some id ↦
      if is_given (some id)
      then some (
          related_table_ids (map listed tables) (id ∷ [])
            (or_else options.relationship_highlight_depth 1) logical)
      else none
]

-- What is drawn for the relationships that are left, in the order physical, logical, inferred.
pub record Drawn : Type 0 where
  pub physical : List FieldEdge
  pub logical : List FieldEdge
  pub available : List InferredRelationship
  pub inferred : List FieldEdge

unfoldable pub drawn :
    Drawing
    → List String
    → List ComparisonTable
    → List LogicalRelationship
    → List InferredRelationship
    → Drawn
unfolding physical_edges logical_edges logical_keys available_inferred inferred_edge
drawn drawing included tables logical inferred =
    let physical = physical_edges drawing included tables in
    let available = available_inferred (physical_keys physical) (logical_keys logical) inferred in
    record {
      physical = physical;
      logical = logical_edges drawing included (physical_keys physical) logical;
      available = available;
      inferred =
          if is_on drawing.options.include_inferred_relationships
          then map (inferred_edge drawing) available
          else [];
    }

abbrev pub is_disabled : LogicalRelationshipStatus → Bool
is_disabled LogicalRelationshipStatus.disabled = true
is_disabled other = false

-- Large diagrams get provisional geometry.
unfoldable pub seed_nodes : SchemaGraphOptions → List TableNode → List TableNode
unfolding seed_canvas_geometry
seed_nodes options nodes =
    if leb 100 (length nodes)
    then map
        (seed_canvas_geometry (is_not_off options.field_level_edges)
          (is_not_off options.show_table_comments))
        nodes
    else nodes

unfoldable pub build_schema_graph : Host → DatabaseSnapshot → SchemaGraphOptions → SchemaGraph
unfolding comparison_tables shown_logical included_ids shown_inferred column_maps nodes_of
    seed_nodes drawn highlighted_ids
build_schema_graph host snapshot options =
    let all_tables = comparison_tables snapshot options.before_snapshot options.change_set in
    let comparing = is_some (comparing_changes snapshot options.change_set) in
    let logical = shown_logical snapshot options in
    let included = included_ids host all_tables options logical in
    let tables = shown_tables included all_tables in
    let inferred =
      shown_inferred included (or_else options.ignored_relationship_keys [])
        (after_tables snapshot) in
    let maps = column_maps options included tables inferred logical in
    let edges =
      drawn (record { options = options; highlighted = highlighted_ids all_tables options logical })
        included tables logical inferred in
    record {
      nodes = seed_nodes options (nodes_of comparing options maps tables);
      edges = edges.physical ++ edges.logical ++ edges.inferred;
      physical_relationship_count = maps.physical_count;
      logical_relationship_count = length (filter (λ r. not (is_disabled r.status)) logical);
      inferred_relationship_count = length edges.available;
    }
