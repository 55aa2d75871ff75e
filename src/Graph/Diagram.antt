-- ===== src/Graph/Diagram.antt =====
-- graph/schema-graph.ts: the nodes and edges of a diagram, and the options it is built with. Members of a style
-- that are the same for all edges of a kind are left out.
-- `details` is the member `data` of an edge; the members of a node's `data` stand beside its own.
pub mod Labels
pub mod Shown
pub mod Nodes
pub mod Edges
pub mod Added
pub mod Build
pub mod Orient
pub mod Closed
pub mod Joined
pub mod Keyed
pub mod Declared
mod Tests
use nodal_studio.Prelude.{
  ℕ, String, Bool, true, false, List, [], ◌∷◌, Option, none, some, ◌==◌, string_eq, if◌then◌else◌,
}
use nodal_studio.Model.{
  DatabaseSnapshot, DomainGroup, LogicalRelationship, LogicalRelationshipStatus,
  RelationshipCardinality, ObjectAnnotation, SchemaChangeSet, TableDefinition,
}
use nodal_studio.Graph.Comparison.Relations.{ChangeStatus, SnapshotSide}

pub data EdgeStyle : Type 0 where
  orthogonal curved : EdgeStyle

pub data IndexDisplay : Type 0 where
  expanded collapsed hidden : IndexDisplay

pub record SchemaGraphOptions : Type 0 where
  pub query : Option String
  pub focus_node_id : Option String
  pub selected_node_id : Option String
  pub root_node_ids : Option (List String)
  pub relationship_depth : Option ℕ
  pub change_set : Option SchemaChangeSet
  pub before_snapshot : Option DatabaseSnapshot
  pub annotations : Option (List ObjectAnnotation)
  pub domain_groups : Option (List DomainGroup)
  pub include_inferred_relationships : Option Bool
  pub include_physical_relationships : Option Bool
  pub include_logical_relationships : Option Bool
  pub include_invalid_logical_relationships : Option Bool
  pub show_relationship_labels : Option Bool
  pub edge_style : Option EdgeStyle
  pub field_level_edges : Option Bool
  pub show_cardinality : Option Bool
  pub show_referential_actions : Option Bool
  pub relationship_highlight_depth : Option ℕ
  pub high_contrast_relations : Option Bool
  pub color_blind_palette : Option Bool
  pub max_initial_columns : Option ℕ
  pub indexes : Option IndexDisplay
  pub show_table_comments : Option Bool
  pub logical_relationships : Option (List LogicalRelationship)
  pub ignored_relationship_keys : Option (List String)
  pub relationships_editable : Option Bool

-- `option`, as a condition, and `option !== false`.
abbrev pub is_on : Option Bool → Bool
is_on none = false
is_on (some b) = b

abbrev pub is_not_off : Option Bool → Bool
is_not_off none = true
is_not_off (some b) = b

-- A text as a condition.
abbrev pub is_given : Option String → Bool
is_given none = false
is_given (some s) = if s == "" then false else true

pub data RelationshipKind : Type 0 where
  physical logical inferred : RelationshipKind

-- The offsets -12, 0 and 12 of an edge that is compared.
pub data Offset : Type 0 where
  above level below : Offset

pub record FieldEdgeData : Type 0 where
  pub relationship_kind : RelationshipKind
  pub change_status : Option ChangeStatus
  pub snapshot_side : Option SnapshotSide
  pub comparison_offset : Option Offset
  pub edge_style : Option EdgeStyle
  pub relationship_id : Option String
  pub relationship_status : Option LogicalRelationshipStatus
  pub source_column : String
  pub target_column : String
  pub constraint_name : Option String
  pub cardinality : Option RelationshipCardinality
  pub note : Option String
  pub confidence : Option ℕ
  pub evidence : Option (List String)
  pub field_level : Bool
  pub on_update : Option String
  pub on_delete : Option String

-- `stroke_width` is in tenths and `opacity` in hundredths. `color` is that of the marker and the stroke.
pub record FieldEdge : Type 0 where
  pub id : String
  pub source : String
  pub target : String
  pub source_handle : String
  pub target_handle : String
  pub edge_type : String
  pub label : Option String
  pub class_name : Option String
  pub color : String
  pub label_color : String
  pub stroke_width : ℕ
  pub stroke_dasharray : Option String
  pub opacity : ℕ
  pub details : FieldEdgeData

pub data Side : Type 0 where
  left right : Side

pub data PortType : Type 0 where
  source target : PortType

-- A provisional port; lengths are counted in halves.
pub record Port : Type 0 where
  pub id : String
  pub type : PortType
  pub side : Side
  pub x : ℕ
  pub y : ℕ

-- What `seedCanvasGeometry` adds to a node.
pub record Geometry : Type 0 where
  pub handles : List Port
  pub initial_column_centers : List (String × ℕ)
  pub field_level : Bool
  pub show_comments : Bool

pub record TableNode : Type 0 where
  pub id : String
  pub selected : Bool
  pub x : ℕ
  pub y : ℕ
  pub height : ℕ
  pub geometry : Option Geometry
  pub schema : String
  pub table : TableDefinition
  pub change_status : Option ChangeStatus
  pub inspection_table : TableDefinition
  pub column_changes : Option (List (String × Option ChangeStatus))
  pub column_notes : Option (List (String × String))
  pub visible_column_names : Option (List String)
  pub annotation : Option ObjectAnnotation
  pub is_core : Option Bool
  pub domain_color : Option String
  pub inferred_foreign_key_columns : Option (List String)
  pub logical_foreign_key_columns : Option (List String)
  pub referenced_foreign_key_columns : List String
  pub relationships_editable : Option Bool

pub record SchemaGraph : Type 0 where
  pub nodes : List TableNode
  pub edges : List FieldEdge
  pub physical_relationship_count : ℕ
  pub logical_relationship_count : ℕ
  pub inferred_relationship_count : ℕ
