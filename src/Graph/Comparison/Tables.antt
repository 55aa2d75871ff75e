-- ===== src/Graph/Comparison/Tables.antt =====
-- graph/schema-comparison.ts, `comparisonTables`: one entry for each table of either snapshot.
use nodal_studio.Prelude.{
  Bool, false, not, List, [], ◌++◌, Option, none, some, filter, flat_map, map, is_some, insert,
  contains, sort, if◌then◌else◌, lookup, of_pairs, or_else, string_eq,
}
use nodal_studio.Model.{
  TableDefinition, table_key_eq, table_eq, column_eq, foreign_key_eq, operation_eq,
  DatabaseSnapshot, SchemaChangeSet, SchemaOperation,
}
use nodal_studio.Graph.Comparison.{
  ComparisonTable, TableMap, map_of, tables_of, baseline_of, comparing_changes, concerns_table,
  same_table_structure, comparable, table_status, keys_of, columns_of, coverage_gap,
}
use nodal_studio.Graph.Comparison.Relations.{
  ChangeStatus, ComparisonRelation, relations_of, previous_relation, current_relation, key_status,
  operation_status, baseline_status, concerns_key,
}
use nodal_studio.Graph.Comparison.Columns.{
  merged_columns, renames_of, column_status, column_note, rename_notes, rename_text, describe,
  baseline_column_status, operation_column_status,
}

-- The variables of the call that every table's entry reads.
pub record Comparison : Type 0 where
  pub comparing : Bool
  pub baseline : Bool
  pub old_tables : TableMap
  pub new_tables : TableMap
  pub operations : List SchemaOperation

-- The table as the comparison shows it: the columns of both sides, and the keys of the relations.
unfoldable pub merged_entry :
    Bool
    → TableDefinition
    → Option TableDefinition
    → Option TableDefinition
    → List SchemaOperation
    → Option ChangeStatus
    → List ComparisonRelation
    → ComparisonTable
merged_entry baseline definition current previous operations status relations =
    let columns = merged_columns (columns_of current) (columns_of previous) in
    let renames = renames_of (columns_of current) operations in
    let changes = of_pairs (
      map
        (λ column. (
          column.name,
          column_status status baseline (columns_of current) (columns_of previous) operations
              renames column.name,
        ))
        columns) in
    let notes =
      map
        (λ column. (
          column.name,
          column_note (columns_of current) (columns_of previous) (lookup column.name changes)
              column.name,
        ))
        columns in
    record {
      schema = definition.key.schema;
      table = record definition {
        columns = columns;
        foreign_keys = map (λ r. r.foreign_key) relations;
      };
      inspection_table = or_else current definition;
      change_status = status;
      column_changes = some changes;
      column_notes = some (of_pairs (notes ++ flat_map rename_notes renames));
      relations = relations;
    }

-- The entry of a table that is shown as it is.
abbrev plain_entry :
    TableDefinition → Option ChangeStatus → List ComparisonRelation → ComparisonTable
plain_entry table status relations = record {
  schema = table.key.schema;
  table = table;
  inspection_table = table;
  change_status = status;
  column_changes = none;
  column_notes = none;
  relations = relations;
}

abbrev unchanged_relations : TableDefinition → List ComparisonRelation
unchanged_relations table =
    map
      (λ fk. record {
        foreign_key = fk;
        change_status = none;
        snapshot_side = none;
        replaced = false;
      })
      table.foreign_keys

unfoldable pub entry_of :
    Bool
    → Bool
    → TableDefinition
    → Option TableDefinition
    → Option TableDefinition
    → List SchemaOperation
    → ComparisonTable
unfolding merged_entry
entry_of comparing baseline definition current previous operations =
    let status = if comparing then table_status baseline current previous operations else none in
    let relations =
      relations_of comparing baseline (keys_of current) (keys_of previous) operations in
    elim (coverage_gap current previous) [
      | some table ↦ plain_entry table status (unchanged_relations table)
      | none ↦
          if comparing
          then merged_entry baseline definition current previous operations status relations
          else plain_entry definition none relations
    ]

unfoldable pub compare_table : Comparison → TableDefinition → ComparisonTable
compare_table c definition =
    entry_of c.comparing c.baseline definition (lookup definition.key c.new_tables)
      (lookup definition.key c.old_tables) (filter (concerns_table definition.key) c.operations)

abbrev pub operations_of : Option SchemaChangeSet → List SchemaOperation
operations_of none = []
operations_of (some changes) = changes.operations

abbrev pub baseline_tables : Option DatabaseSnapshot → List TableDefinition
baseline_tables none = []
baseline_tables (some snapshot) = tables_of snapshot

abbrev pub baseline_for : Option DatabaseSnapshot → Option SchemaChangeSet → Option DatabaseSnapshot
baseline_for before none = none
baseline_for before (some changes) = baseline_of before changes

-- The tables of the snapshot, then those of the baseline that it no longer has.
unfoldable pub all_tables : List TableDefinition → List TableDefinition → List TableDefinition
all_tables after before =
    after ++ filter (λ table. not (is_some (lookup table.key (map_of after)))) before

unfoldable pub comparison_tables :
    DatabaseSnapshot → Option DatabaseSnapshot → Option SchemaChangeSet → List ComparisonTable
comparison_tables after before changes =
    let comparing = comparing_changes after changes in
    let baseline = baseline_for before comparing in
    map
      (compare_table (record {
        comparing = is_some comparing;
        baseline = is_some baseline;
        old_tables = map_of (baseline_tables baseline);
        new_tables = map_of (tables_of after);
        operations = operations_of comparing;
      }))
      (all_tables (tables_of after) (baseline_tables baseline))

-- Opens all of the comparison, for a run on concrete snapshots.
unfoldable pub comparisons : Unit {0}
unfolding comparison_tables all_tables compare_table entry_of merged_entry coverage_gap table_status
    concerns_table comparing_changes baseline_of same_table_structure comparable relations_of
    previous_relation current_relation key_status operation_status baseline_status merged_columns
    renames_of column_status baseline_column_status operation_column_status column_note describe
    rename_notes rename_text concerns_key lookup insert contains sort table_key_eq table_eq
    column_eq foreign_key_eq operation_eq
comparisons = tt
