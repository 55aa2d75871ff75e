-- ===== src/Graph/Diagram/Edges.antt =====
-- graph/schema-graph.ts: the edges of `buildSchemaGraph`.
use nodal_studio.Prelude.{
  ℕ, suc, String, Bool, true, false, not, List, [], ◌∷◌, Option, none, some, or_else, is_some, map,
  filter, flat_map, contains, of_list, decimal, ◌&◌, ◌==◌, string_eq, if◌then◌else◌,
}
use nodal_studio.Model.{ForeignKeyDefinition, LogicalRelationshipStatus}
use nodal_studio.Graph.Ids.{logical_relationship_key}
use nodal_studio.Graph.Related.{target_id}
use nodal_studio.Graph.Comparison.{ComparisonTable}
use nodal_studio.Graph.Comparison.Relations.{
  ChangeStatus, modified, deleted, SnapshotSide, ComparisonRelation,
}
use nodal_studio.Graph.Diagram.{
  SchemaGraphOptions, FieldEdge, EdgeStyle, curved, PortType, Side, Offset, physical, is_on,
  is_not_off,
}
use nodal_studio.Graph.Diagram.Labels.{
  relationship_opacity, field_handle_id, table_handle_id, relationship_label, change_marker,
  status_name, relation_color,
}
use nodal_studio.Graph.Diagram.Shown.{id_of}

-- `columns.flatMap((source, index) => { const target = others[index]; if (!target) return []; ... })`: the pairs of
-- columns with their place; a column without a partner, or with one of no name, has no pair.
unfoldable pub column_pairs : ℕ → List String → List String → List (ℕ × String × String)
column_pairs index [] others = []
column_pairs index (name ∷ names) [] = []
column_pairs index (name ∷ names) (other ∷ others) =
    let rest = column_pairs (suc index) names others in
    if other == "" then rest else (index, name, other) ∷ rest

-- The highlighted tables, and the options.
pub record Drawing : Type 0 where
  pub options : SchemaGraphOptions
  pub highlighted : Option (List String)

abbrev pub handle_of : SchemaGraphOptions → PortType → String → Side → String
handle_of options kind column side =
    if is_not_off options.field_level_edges
    then field_handle_id kind column side
    else table_handle_id kind side

abbrev pub plain_type : Option EdgeStyle → String
plain_type (some curved) = "default"
plain_type other = "smoothstep"

abbrev pub side_label : Option SnapshotSide → String
side_label (some SnapshotSide.before) = "Before"
side_label other = "After"

abbrev pub side_suffix : Option SnapshotSide → String
side_suffix (some SnapshotSide.before) = ".before"
side_suffix (some SnapshotSide.after) = ".after"
side_suffix none = ""

abbrev pub class_of : Option ChangeStatus → Option String
class_of none = none
class_of (some status) = some ("comparison-edge comparison-edge-" & status_name status)

abbrev pub dashes_of : Option ChangeStatus → Option String
dashes_of (some deleted) = some "8 5"
dashes_of (some modified) = some "3 3"
dashes_of other = none

abbrev pub offset_of : Bool → Option ChangeStatus → Offset
offset_of true status = Offset.above
offset_of false (some modified) = Offset.below
offset_of false other = Offset.level

abbrev key_label : SchemaGraphOptions → ForeignKeyDefinition → String → String → Option String
key_label options key source_column target_column =
    relationship_label options key.name source_column key.referenced_table target_column
      key.on_delete key.on_update

-- The label of a change always names the constraint.
abbrev pub change_label :
    SchemaGraphOptions → ComparisonRelation → String → String → ChangeStatus → String
change_label options relation source_column target_column status =
    change_marker status
    & " "
    & status_name status
    & " · "
    & side_label relation.snapshot_side
    & " · "
    & or_else
        (key_label (record options { show_relationship_labels = some true }) relation.foreign_key
          source_column target_column)
        "undefined"

unfoldable pub physical_edge :
    Drawing → ComparisonTable → ComparisonRelation → ℕ × String × String → FieldEdge
unfolding relationship_opacity field_handle_id relationship_label decimal change_marker
    relation_color
physical_edge drawing t relation (index, source_column, target_column) =
    let key = relation.foreign_key in
    let options = drawing.options in
    let color = relation_color relation.change_status (is_on options.color_blind_palette) in
    record {
      id =
          t.schema
          & "."
          & t.table.key.name
          & "."
          & key.name
          & "."
          & decimal index
          & side_suffix relation.snapshot_side;
      source = id_of t;
      target = target_id key;
      source_handle = handle_of options PortType.source source_column Side.right;
      target_handle = handle_of options PortType.target target_column Side.left;
      edge_type =
          if is_some relation.change_status then "comparison" else plain_type options.edge_style;
      label = elim relation.change_status [
        | none ↦ key_label options key source_column target_column
        | some status ↦ some (change_label options relation source_column target_column status)
      ];
      class_name = class_of relation.change_status;
      color = color;
      label_color = color;
      stroke_width = if is_on options.high_contrast_relations then 30 else 18;
      stroke_dasharray = dashes_of relation.change_status;
      opacity = relationship_opacity drawing.highlighted (id_of t) (target_id key);
      details = record {
        relationship_kind = physical;
        change_status = relation.change_status;
        snapshot_side = relation.snapshot_side;
        comparison_offset = some (offset_of relation.replaced relation.change_status);
        edge_style = options.edge_style;
        relationship_id = none;
        relationship_status = none;
        source_column = source_column;
        target_column = target_column;
        constraint_name = some key.name;
        cardinality = none;
        note = none;
        confidence = none;
        evidence = none;
        field_level = is_not_off options.field_level_edges;
        on_update = some key.on_update;
        on_delete = some key.on_delete;
      };
    }

unfoldable pub physical_edges : Drawing → List String → List ComparisonTable → List FieldEdge
unfolding physical_edge column_pairs contains
physical_edges drawing included tables =
    if is_not_off drawing.options.include_physical_relationships
    then flat_map
        (λ t.
          flat_map
            (λ relation.
              map (physical_edge drawing t relation) (
                column_pairs 0 relation.foreign_key.columns
                  relation.foreign_key.referenced_columns))
            (filter (λ relation. contains (target_id relation.foreign_key) included) t.relations))
        tables
    else []

-- `logicalRelationshipKey` of an edge.
abbrev pub edge_key : FieldEdge → String
edge_key e =
    logical_relationship_key e.source e.details.source_column e.target e.details.target_column

abbrev pub is_deleted : Option ChangeStatus → Bool
is_deleted (some deleted) = true
is_deleted other = false

abbrev pub physical_keys : List FieldEdge → List String
physical_keys edges =
    of_list (map edge_key (filter (λ e. not (is_deleted e.details.change_status)) edges))

-- A relationship that is shown only with the invalid ones; a conflicted one is always shown, as invalid.
abbrev pub is_withheld : LogicalRelationshipStatus → Bool
is_withheld LogicalRelationshipStatus.disabled = true
is_withheld LogicalRelationshipStatus.orphaned = true
is_withheld LogicalRelationshipStatus.superseded_by_physical = true
is_withheld other = false

abbrev pub is_invalid : LogicalRelationshipStatus → Bool
is_invalid LogicalRelationshipStatus.active = false
is_invalid other = true
