-- ===== src/Graph/Diagram/Labels.antt =====
-- graph/schema-graph.ts: the height of a table, and the labels, colors and handles of its edges.
use nodal_studio.Prelude.{
  ℕ, String, Bool, true, false, List, [], ◌∷◌, ◌++◌, Option, none, some, or_else, length, contains,
  ◌&◌, string_eq, ◌&&◌, ◌+◌, ◌*◌, min, max, ltb, if◌then◌else◌, join,
}
use nodal_studio.Model.{
  TableDefinition, RelationshipCardinality, one_to_one, one_to_many, many_to_one, many_to_many,
  unspecified,
}
use nodal_studio.Graph.Comparison.Relations.{ChangeStatus, added, modified, deleted}
use nodal_studio.Graph.Diagram.{
  SchemaGraphOptions, IndexDisplay, collapsed, hidden, Side, PortType, is_on, is_not_off, is_given,
}

-- The second argument of `estimatedTableNodeHeight`.
pub record HeightOptions : Type 0 where
  pub max_initial_columns : Option ℕ
  pub indexes : Option IndexDisplay
  pub show_table_comments : Option Bool
  pub visible_column_count : Option ℕ

abbrev pub index_rows : Option IndexDisplay → ℕ → ℕ
index_rows (some hidden) count = 0
index_rows (some collapsed) count = if ltb 0 count then 32 else 0
index_rows other count = min count 5 * 24 + (if ltb 5 count then 23 else 0)

unfoldable pub estimated_table_node_height : TableDefinition → HeightOptions → ℕ
estimated_table_node_height table options =
    let count = length table.columns in
    let visible =
      or_else options.visible_column_count
        (min count (or_else options.max_initial_columns count)) in
    let truncated = if ltb visible count then 23 else 0 in
    let comment =
      if is_given table.comment && is_not_off options.show_table_comments then 36 else 0 in
    max 120
      (42 + visible * 27 + truncated + index_rows options.indexes (length table.indexes) + comment)

-- In hundredths.
unfoldable pub relationship_opacity : Option (List String) → String → String → ℕ
unfolding contains
relationship_opacity none source target = 100
relationship_opacity (some highlighted) source target =
    if contains source highlighted && contains target highlighted then 100 else 16

abbrev pub side_name : Side → String
side_name Side.left = "left"
side_name Side.right = "right"

abbrev pub port_name : PortType → String
port_name PortType.source = "source"
port_name PortType.target = "target"

unfoldable pub field_handle_id : PortType → String → Side → String
field_handle_id kind column side = port_name kind & ":" & column & ":" & side_name side

-- `table-source-right`, and the like.
abbrev pub table_handle_id : PortType → Side → String
table_handle_id kind side = "table-" & port_name kind & "-" & side_name side

abbrev part : Bool → String → List String
part true label = label ∷ []
part false label = []

-- `parts.length ? parts.join(" · ") : undefined`
unfoldable pub label_of : List String → Option String
unfolding join
label_of [] = none
label_of (piece ∷ pieces) = some (join " · " (piece ∷ pieces))

unfoldable pub relationship_label :
    SchemaGraphOptions → String → String → String → String → String → String → Option String
unfolding label_of
relationship_label options constraint source_column target_table target_column on_delete on_update =
    label_of (
      part (is_on options.show_relationship_labels)
        (constraint & ": " & source_column & " → " & target_table & "." & target_column)
      ++ part (is_on options.show_cardinality) "N → 1"
      ++ part (is_on options.show_referential_actions)
          ("DELETE " & on_delete & " · UPDATE " & on_update))

abbrev pub cardinality_label : RelationshipCardinality → String
cardinality_label one_to_one = "1 → 1"
cardinality_label one_to_many = "1 → N"
cardinality_label many_to_one = "N → 1"
cardinality_label many_to_many = "N ↔ N"
cardinality_label unspecified = "? → ?"

unfoldable pub logical_relationship_label :
    SchemaGraphOptions → String → RelationshipCardinality → Option String
unfolding label_of
logical_relationship_label options name cardinality = label_of (
    part (is_on options.show_relationship_labels) name
    ++ part (is_on options.show_cardinality) (cardinality_label cardinality))

unfoldable pub change_marker : ChangeStatus → String
change_marker added = "+"
change_marker modified = "~"
change_marker deleted = "−"

abbrev pub status_name : ChangeStatus → String
status_name added = "added"
status_name modified = "modified"
status_name deleted = "deleted"

unfoldable pub relation_color : Option ChangeStatus → Bool → String
relation_color (some deleted) color_blind =
    if color_blind then "var(--ds-relation-accessible-orange)" else "var(--ds-relation-deleted)"
relation_color (some modified) color_blind = "var(--ds-relation-modified)"
relation_color (some added) color_blind =
    if color_blind then "var(--ds-relation-accessible-blue)" else "var(--ds-relation-added)"
relation_color none color_blind =
    if color_blind then "var(--ds-relation-accessible-blue)" else "var(--ds-relation-physical)"
