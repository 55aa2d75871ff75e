-- ===== src/Graph/Diagram/Added.antt =====
-- graph/schema-graph.ts: the edges of logical and of inferred relationships.
use nodal_studio.Prelude.{
  ℕ, String, Bool, not, List, [], none, some, map, filter, flat_map, contains, of_list, decimal,
  ◌&◌, ◌&&◌, ◌||◌, string_eq, if◌then◌else◌,
}
use nodal_studio.Model.{LogicalRelationship}
use nodal_studio.Graph.Ids.{logical_relationship_key}
use nodal_studio.Graph.Related.{endpoint_id, is_live}
use nodal_studio.Graph.Inference.{InferredRelationship}
use nodal_studio.Graph.Diagram.{FieldEdge, PortType, Side, logical, inferred, is_on, is_not_off}
use nodal_studio.Graph.Diagram.Labels.{
  relationship_opacity, field_handle_id, logical_relationship_label,
}
use nodal_studio.Graph.Diagram.Edges.{
  Drawing, handle_of, plain_type, column_pairs, is_withheld, is_invalid,
}

unfoldable pub logical_edge : Drawing → LogicalRelationship → ℕ × String × String → FieldEdge
unfolding relationship_opacity field_handle_id logical_relationship_label decimal
logical_edge drawing r (index, source_column, target_column) =
    let options = drawing.options in
    let color =
      if is_invalid r.status then "var(--ds-relation-muted)" else "var(--ds-relation-logical)" in
    record {
      id = "logical." & r.id & "." & decimal index;
      source = endpoint_id r.source;
      target = endpoint_id r.target;
      source_handle = handle_of options PortType.source source_column Side.right;
      target_handle = handle_of options PortType.target target_column Side.left;
      edge_type = plain_type options.edge_style;
      label = logical_relationship_label options r.name r.cardinality;
      class_name = none;
      color = color;
      label_color = color;
      stroke_width = if is_on options.high_contrast_relations then 30 else 20;
      stroke_dasharray = some (if is_invalid r.status then "3 5" else "8 5");
      opacity =
          relationship_opacity drawing.highlighted (endpoint_id r.source) (endpoint_id r.target);
      details = record {
        relationship_kind = logical;
        change_status = none;
        snapshot_side = none;
        comparison_offset = none;
        edge_style = none;
        relationship_id = some r.id;
        relationship_status = some r.status;
        source_column = source_column;
        target_column = target_column;
        constraint_name = some r.name;
        cardinality = some r.cardinality;
        note = r.note;
        confidence = none;
        evidence = none;
        field_level = is_not_off options.field_level_edges;
        on_update = none;
        on_delete = none;
      };
    }

-- The pairs of columns that no physical relationship joins already, or all with the invalid ones.
unfoldable pub free_pairs : Bool → List String → LogicalRelationship → List (ℕ × String × String)
unfolding column_pairs contains logical_relationship_key
free_pairs invalid_too keys r =
    filter
      (λ pair.
        not (
          contains
            (logical_relationship_key (endpoint_id r.source) pair.1 (endpoint_id r.target) pair.2)
            keys)
        || invalid_too)
      (column_pairs 0 r.source.columns r.target.columns)

unfoldable pub logical_edges :
    Drawing → List String → List String → List LogicalRelationship → List FieldEdge
unfolding logical_edge free_pairs contains
logical_edges drawing included keys relationships =
    let invalid_too = is_on drawing.options.include_invalid_logical_relationships in
    if is_not_off drawing.options.include_logical_relationships
    then flat_map (λ r. map (logical_edge drawing r) (free_pairs invalid_too keys r))
        (filter
          (λ r.
            (not (is_withheld r.status) || invalid_too)
            && contains (endpoint_id r.source) included
            && contains (endpoint_id r.target) included)
          relationships)
    else []

unfoldable pub logical_keys : List LogicalRelationship → List String
unfolding column_pairs logical_relationship_key
logical_keys relationships = of_list (
    flat_map
      (λ r.
        map
          (λ pair.
            logical_relationship_key (endpoint_id r.source) pair.1 (endpoint_id r.target) pair.2)
          (column_pairs 0 r.source.columns r.target.columns))
      (filter (λ r. is_live r.status) relationships))

-- `availableInferredRelationships`
unfoldable pub available_inferred :
    List String → List String → List InferredRelationship → List InferredRelationship
unfolding contains
available_inferred physical_keys keys relationships =
    filter
      (λ r.
        not (contains r.relationship_key physical_keys) && not (contains r.relationship_key keys))
      relationships

unfoldable pub inferred_edge : Drawing → InferredRelationship → FieldEdge
unfolding relationship_opacity field_handle_id
inferred_edge drawing r =
    let options = drawing.options in
    record {
      id = "inferred." & r.source_id & "." & r.column & "." & r.target_id;
      source = r.source_id;
      target = r.target_id;
      source_handle = handle_of options PortType.source r.column Side.right;
      target_handle = handle_of options PortType.target r.referenced_column Side.left;
      edge_type = plain_type options.edge_style;
      label =
          if is_on options.show_relationship_labels
          then some ("? " & r.column & " → " & r.referenced_column)
          else none;
      class_name = none;
      color =
          if is_on options.color_blind_palette
          then "var(--ds-relation-accessible-orange)"
          else "var(--ds-relation-inferred)";
      label_color = "var(--ds-relation-inferred)";
      stroke_width = if is_on options.high_contrast_relations then 26 else 14;
      stroke_dasharray = some "6 4";
      opacity = relationship_opacity drawing.highlighted r.source_id r.target_id;
      details = record {
        relationship_kind = inferred;
        change_status = none;
        snapshot_side = none;
        comparison_offset = none;
        edge_style = none;
        relationship_id = none;
        relationship_status = none;
        source_column = r.column;
        target_column = r.referenced_column;
        constraint_name = none;
        cardinality = none;
        note = none;
        confidence = some r.confidence;
        evidence = some r.evidence;
        field_level = is_not_off options.field_level_edges;
        on_update = none;
        on_delete = none;
      };
    }
