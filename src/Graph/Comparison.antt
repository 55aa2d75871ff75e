-- ===== src/Graph/Comparison.antt =====
-- graph/schema-comparison.ts, `comparisonTables`: the tables of a diagram that compares two snapshots.
-- The JSON text of [schema, name], by which the code keys its maps, stands for the pair.
pub mod Relations
pub mod Columns
pub mod Tables
pub mod Merged
pub mod Laws
pub mod Unchanged
use nodal_studio.Prelude.{
  String, Bool, true, false, not, ◌&&◌, ◌||◌, List, [], ◌∷◌, ◌++◌, Option, none, some, filter, any,
  flat_map, map, is_some, if◌then◌else◌, ◌==◌, string_eq, lookup, of_pairs, contains, or_else, ◌&◌,
  insert,
}
use nodal_studio.Model.{
  TableDefinition, TableKey, table_key_eq, table_eq, SqliteTable, DatabaseSnapshot, SchemaChangeSet,
  SchemaOperation, add_table, operation_eq, ForeignKeyDefinition, ColumnDefinition,
}
use nodal_studio.Graph.Comparison.Relations.{
  ChangeStatus, added, modified, deleted, ComparisonRelation, relations_of,
}
use nodal_studio.Graph.Comparison.Columns.{
  merged_columns, renames_of, column_status, column_note, rename_notes,
}

pub record ComparisonTable : Type 0 where
  pub schema : String
  pub table : TableDefinition
  pub inspection_table : TableDefinition
  pub change_status : Option ChangeStatus
  pub column_changes : Option (List (String × Option ChangeStatus))
  pub column_notes : Option (List (String × String))
  pub relations : List ComparisonRelation

abbrev truthy : Option Bool → Bool
truthy none = false
truthy (some b) = b

-- `table.sqlite?.columnsUnavailable`
abbrev pub columns_unavailable : TableDefinition → Bool
columns_unavailable table = elim table.sqlite [
  | none ↦ false
  | some s ↦ truthy s.columns_unavailable
]

map_sqlite : (SqliteTable → SqliteTable) → Option SqliteTable → Option SqliteTable
map_sqlite f none = none
map_sqlite f (some s) = some (f s)

-- What is compared of a table: a property that the code leaves out is set to one value on both sides.
unfoldable pub comparable : Bool → TableDefinition → TableDefinition
unfolding map_sqlite
comparable true table = record table {
  sqlite =
      map_sqlite (λ s. record s { columns_unavailable = none; columns = none; diagnostics = [] })
        table.sqlite;
  columns = [];
  primary_key = none;
  foreign_keys = [];
  indexes = [];
  constraints = [];
}
comparable false table = record table {
  sqlite = map_sqlite (λ s. record s { columns_unavailable = none; diagnostics = [] }) table.sqlite;
}

unfoldable pub same_table_structure : TableDefinition → TableDefinition → Bool
unfolding comparable
same_table_structure left right =
    let partial = columns_unavailable left || columns_unavailable right in
    comparable partial left == comparable partial right

abbrev pub tables_of : DatabaseSnapshot → List TableDefinition
tables_of snapshot = flat_map (λ schema. schema.tables) snapshot.schemas

abbrev pub TableMap : Type 0
TableMap = List (TableKey × TableDefinition)

abbrev pub map_of : List TableDefinition → TableMap
map_of tables = of_pairs (map (λ table. (table.key, table)) tables)

-- `before?.id === changes?.beforeSnapshotId ? before : undefined`, for changes that lead to `after`
unfoldable pub baseline_of : Option DatabaseSnapshot → SchemaChangeSet → Option DatabaseSnapshot
baseline_of none changes = none
baseline_of (some before) changes =
    if before.id == changes.before_snapshot_id then some before else none

-- The changes, if they lead to the snapshot `after`.
unfoldable pub comparing_changes :
    DatabaseSnapshot → Option SchemaChangeSet → Option SchemaChangeSet
comparing_changes after none = none
comparing_changes after (some changes) =
    if changes.after_snapshot_id == after.id then some changes else none

-- The operation concerns the table, or an object inside it.
unfoldable pub concerns_table : TableKey → SchemaOperation → Bool
concerns_table key op =
    if op.object.kind == "table"
    then op.object.schema == key.schema && op.object.name == key.name
    else contains op.object.kind
        ("column" ∷ "primaryKey" ∷ "foreignKey" ∷ "index" ∷ "constraint" ∷ [])
      && op.object.schema == (key.schema & "." & key.name)

abbrev is_empty {ℓ} : {A : Type ℓ} → List A → Bool
is_empty [] = true
is_empty (x ∷ xs) = false

abbrev differs : Option TableDefinition → Option TableDefinition → Bool
differs (some previous) (some current) = not (same_table_structure previous current)
differs _ _ = false

-- The status of a table while two snapshots are compared.
unfoldable pub table_status :
    Bool
    → Option TableDefinition
    → Option TableDefinition
    → List SchemaOperation
    → Option ChangeStatus
table_status baseline current previous operations =
    if baseline && not (is_some current)
    then some deleted
    else if (baseline && not (is_some previous))
        || any (λ op. op.operation_type == add_table) operations
    then some added
    else if not (is_empty operations) || differs previous current
    then some modified
    else none

abbrev pub keys_of : Option TableDefinition → List ForeignKeyDefinition
keys_of none = []
keys_of (some table) = table.foreign_keys

abbrev pub columns_of : Option TableDefinition → List ColumnDefinition
columns_of none = []
columns_of (some table) = table.columns

-- Both sides are captured, one of them without its columns.
unfoldable pub coverage_gap :
    Option TableDefinition → Option TableDefinition → Option TableDefinition
coverage_gap (some current) (some previous) =
    if columns_unavailable current || columns_unavailable previous then some current else none
coverage_gap _ _ = none
