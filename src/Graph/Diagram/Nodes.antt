-- ===== src/Graph/Diagram/Nodes.antt =====
-- graph/schema-graph.ts: the nodes of `buildSchemaGraph` with `tableSemantics`, and graph/canvas-geometry.ts.
use nodal_studio.Prelude.{
  ℕ, zero, suc, String, Bool, false, List, [], ◌∷◌, ◌++◌, Option, none, some, or_else, is_some, map,
  filter, any, find, flat_map, length, contains, of_list, lookup, insert, of_pairs, ◌==◌, string_eq,
  ◌&&◌, ◌||◌, ◌+◌, ◌*◌, ◌/◌, ◌%◌, if◌then◌else◌,
}
use nodal_studio.Model.{ColumnDefinition, ObjectAnnotation, DomainGroup, ObjectKey}
use nodal_studio.Graph.Comparison.{ComparisonTable}
use nodal_studio.Graph.Comparison.Relations.{ChangeStatus}
use nodal_studio.Graph.Diagram.{SchemaGraphOptions, TableNode, Port, PortType, Side, is_given}
use nodal_studio.Graph.Diagram.Labels.{
  estimated_table_node_height, field_handle_id, table_handle_id,
}
use nodal_studio.Graph.Diagram.Shown.{id_of, ColumnMaps, columns_at}

abbrev pub names_table : String → String → ObjectKey → Bool
names_table schema table key = key.kind == "table" && key.schema == schema && key.name == table

-- The annotation and the domain of a table; `isCore` and `domainColor` are read off them.
pub record TableSemantics : Type 0 where
  pub annotation : Option ObjectAnnotation
  pub is_core : Option Bool
  pub domain_color : Option String

abbrev pub core_of : Option ObjectAnnotation → Option Bool
core_of none = none
core_of (some annotation) = some annotation.is_core

abbrev pub color_of : Option DomainGroup → Option String
color_of none = none
color_of (some group) = some group.color

unfoldable pub table_semantics :
    String → String → Option (List ObjectAnnotation) → Option (List DomainGroup) → TableSemantics
table_semantics schema table annotations groups =
    let annotation =
      find (λ item. names_table schema table item.object_key) (or_else annotations []) in
    let group = find (λ item. any (names_table schema table) item.table_keys) (or_else groups []) in
    record { annotation = annotation; is_core = core_of annotation; domain_color = color_of group }

-- `columnChanges?.[column.name]`, as a condition.
abbrev pub is_changed : Option (List (String × Option ChangeStatus)) → String → Bool
is_changed none name = false
is_changed (some changes) name = elim (lookup name changes) [
  | none ↦ false
  | some status ↦ is_some status
]

abbrev take_names : ℕ → List ColumnDefinition → List String
take_names zero columns = []
take_names (suc n) [] = []
take_names (suc n) (column ∷ columns) = column.name ∷ take_names n columns

-- The columns that a node must show, and those that it shows.
unfoldable pub required_columns : SchemaGraphOptions → ColumnMaps → ComparisonTable → List String
unfolding contains lookup
required_columns options maps t = of_list (
    take_names (or_else options.max_initial_columns (length t.table.columns)) t.table.columns
    ++ flat_map (λ key. key.columns) t.table.foreign_keys
    ++ columns_at maps.referenced_columns (id_of t)
    ++ columns_at maps.logical_columns (id_of t)
    ++ columns_at maps.inferred_columns (id_of t))

unfoldable pub visible_columns :
    Bool → SchemaGraphOptions → ColumnMaps → ComparisonTable → List String
unfolding required_columns contains lookup
visible_columns comparing options maps t =
    map (λ column. column.name)
      (filter
        (λ column.
          (comparing && is_changed t.column_changes column.name)
          || contains column.name (required_columns options maps t))
        t.table.columns)

abbrev pub count_of : Option (List String) → Option ℕ
count_of none = none
count_of (some names) = some (length names)

unfoldable pub node_of :
    Bool
    → SchemaGraphOptions
    → ColumnMaps
    → List (String × List String)
    → ℕ
    → ComparisonTable
    → TableNode
unfolding estimated_table_node_height table_semantics lookup
node_of comparing options maps visible index t =
    let semantics =
      table_semantics t.schema t.table.key.name options.annotations options.domain_groups in
    record {
      id = id_of t;
      selected = elim options.selected_node_id [
        | none ↦ false
        | some selected ↦ selected == id_of t
      ];
      x = index % 4 * 320;
      y = index / 4 * 300;
      height = estimated_table_node_height t.table (record {
        max_initial_columns = options.max_initial_columns;
        indexes = options.indexes;
        show_table_comments = options.show_table_comments;
        visible_column_count = count_of (lookup (id_of t) visible);
      });
      geometry = none;
      schema = t.schema;
      table = t.table;
      change_status = t.change_status;
      inspection_table = t.inspection_table;
      column_changes = t.column_changes;
      column_notes = t.column_notes;
      visible_column_names = lookup (id_of t) visible;
      annotation = semantics.annotation;
      is_core = semantics.is_core;
      domain_color = semantics.domain_color;
      inferred_foreign_key_columns = lookup (id_of t) maps.inferred_columns;
      logical_foreign_key_columns = lookup (id_of t) maps.logical_columns;
      referenced_foreign_key_columns = columns_at maps.referenced_columns (id_of t);
      relationships_editable = if comparing then some false else options.relationships_editable;
    }

abbrev pub number_nodes :
    (ℕ → ComparisonTable → TableNode) → ℕ → List ComparisonTable → List TableNode
number_nodes node index [] = []
number_nodes node index (t ∷ tables) = node index t ∷ number_nodes node (suc index) tables

unfoldable pub nodes_of :
    Bool → SchemaGraphOptions → ColumnMaps → List ComparisonTable → List TableNode
unfolding node_of visible_columns insert
nodes_of comparing options maps tables =
    let visible =
      of_pairs (map (λ t. (id_of t, visible_columns comparing options maps t)) tables) in
    number_nodes (node_of comparing options maps visible) 0 tables

-- graph/canvas-geometry.ts; lengths in halves.
abbrev pub shown_names : TableNode → List String
shown_names node =
    or_else node.visible_column_names (map (λ column. column.name) node.table.columns)

abbrev pub centers_from : ℕ → ℕ → List String → List (String × ℕ)
centers_from offset index [] = []
centers_from offset index (name ∷ names) =
    (name, 2 * (42 + offset + index * 27) + 27) ∷ centers_from offset (suc index) names

abbrev pub port_at : PortType → Side → ℕ → String → ℕ → Port
port_at type side width id y = record {
  id = id;
  type = type;
  side = side;
  x = elim side [ Side.left ↦ 0 | Side.right ↦ 2 * width ];
  y = y;
}

unfoldable pub column_ports :
    List String → List String → List (String × ℕ) → Side → String → List Port
unfolding field_handle_id contains lookup
column_ports sources targets centers side name =
    let y = or_else (lookup name centers) 0 in
    (if contains name sources
      then port_at PortType.source side 280 (field_handle_id PortType.source name side) y ∷ []
      else [])
    ++ (if contains name targets
        then port_at PortType.target side 280 (field_handle_id PortType.target name side) y ∷ []
        else [])

-- The width of a node of `buildSchemaGraph` is 280.
unfoldable pub seed_canvas_geometry : Bool → Bool → TableNode → TableNode
unfolding insert column_ports
seed_canvas_geometry field_level show_comments node =
    let offset = if show_comments && is_given node.table.comment then 36 else 0 in
    let centers = of_pairs (centers_from offset 0 (shown_names node)) in
    let sources = of_list (
      flat_map (λ key. key.columns) node.table.foreign_keys
      ++ or_else node.inferred_foreign_key_columns []
      ++ or_else node.logical_foreign_key_columns []) in
    let targets = of_list node.referenced_foreign_key_columns in
    let ports = λ (side : Side).
      if field_level
      then flat_map (column_ports sources targets centers side) (shown_names node)
      else port_at PortType.source side 280 (table_handle_id PortType.source side) node.height
        ∷ port_at PortType.target side 280 (table_handle_id PortType.target side) node.height
        ∷ [] in
    record node {
      geometry = some (record {
        handles = ports Side.left ++ ports Side.right;
        initial_column_centers = centers;
        field_level = field_level;
        show_comments = show_comments;
      });
    }
