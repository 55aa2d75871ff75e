-- ===== src/Graph/Comparison/Columns.antt =====
-- graph/schema-comparison.ts: the columns of a compared table, their statuses and notes. A `Record`
-- is read by key alone, so the order of its entries is not modelled beyond that of insertion.
use nodal_studio.Prelude.{
  String, Bool, false, not, ◌&&◌, ◌||◌, List, [], ◌∷◌, ◌++◌, Option, none, some, find, filter, any,
  map, if◌then◌else◌, ◌==◌, string_eq, leb, sort, insert, fold, contains, ◌&◌, or_else,
}
use nodal_studio.Model.{
  ColumnDefinition, column_eq, SchemaOperation, operation_eq, rename_column, add_column,
  alter_column,
}
use nodal_studio.Graph.Comparison.Relations.{ChangeStatus, added, modified, deleted}

-- `columns?.find((candidate) => candidate.name === name)`
abbrev pub column_named : String → List ColumnDefinition → Option ColumnDefinition
column_named name = find (λ candidate. candidate.name == name)

abbrev pub has_column : String → List ColumnDefinition → Bool
has_column name = any (λ candidate. candidate.name == name)

abbrev pub by_ordinal : ColumnDefinition → ColumnDefinition → Bool
by_ordinal left right = leb left.ordinal_position right.ordinal_position

-- The current columns and the previous ones that are gone, by ordinal position.
unfoldable pub merged_columns :
    List ColumnDefinition → List ColumnDefinition → List ColumnDefinition
merged_columns current previous =
    sort by_ordinal (current ++ filter (λ column. not (has_column column.name current)) previous)

-- What a rename operation writes for the column that it leads to.
unfoldable pub rename_text : ColumnDefinition → String
rename_text column =
    column.name
    & ": "
    & column.formatted_type
    & (if column.nullable then " nullable" else " not null")

abbrev says : Option String → String → Bool
says none text = false
says (some after) text = after == text

record_rename :
    List ColumnDefinition → List (String × String) → SchemaOperation → List (String × String)
unfolding rename_text
record_rename current renames op =
    elim (filter (λ column. says op.after (rename_text column)) current) [
      | match ∷ [] ↦ insert op.object.name match.name renames
      | _ ↦ renames
    ]

unfoldable pub renames_of : List ColumnDefinition → List SchemaOperation → List (String × String)
unfolding record_rename
renames_of current operations =
    fold (record_rename current) [] (filter (λ op. op.operation_type == rename_column) operations)

abbrev pub is_renamed_to : String → List (String × String) → Bool
is_renamed_to name renames = contains name (map (λ rename. rename.1) renames)

-- The status of a column against the baseline.
unfoldable pub baseline_column_status :
    List ColumnDefinition
    → List ColumnDefinition
    → List (String × String)
    → String
    → Option ChangeStatus
baseline_column_status current previous renames name = elim (column_named name current) [
  | none ↦ some deleted
  | some next ↦ elim (column_named name previous) [
    | none ↦ if is_renamed_to name renames then some modified else some added
    | some old ↦ if old == next then none else some modified
  ]
]

abbrev concerns_column : String → SchemaOperation → Bool
concerns_column name op = op.object.kind == "column" && op.object.name == name

-- Its status where only the operations are known.
unfoldable pub operation_column_status :
    List SchemaOperation → List (String × String) → String → Option ChangeStatus
operation_column_status operations renames name =
    if any (λ op. concerns_column name op && op.operation_type == add_column) operations
    then some added
    else if any (λ op. concerns_column name op && op.operation_type == alter_column) operations
        || is_renamed_to name renames
    then some modified
    else none

unfoldable pub column_status :
    Option ChangeStatus
    → Bool
    → List ColumnDefinition
    → List ColumnDefinition
    → List SchemaOperation
    → List (String × String)
    → String
    → Option ChangeStatus
column_status (some deleted) baseline current previous operations renames name = some deleted
column_status (some added) baseline current previous operations renames name = some added
column_status _ baseline current previous operations renames name =
    if baseline
    then baseline_column_status current previous renames name
    else operation_column_status operations renames name

unfoldable pub describe : ColumnDefinition → String
describe column =
    column.formatted_type
    & ", "
    & (if column.nullable then "nullable" else "not null")
    & ", default: "
    & or_else column.default_value "none"
    & ", comment: "
    & or_else column.comment "none"

-- A note that is empty unless the column is modified or deleted.
unfoldable pub column_note :
    List ColumnDefinition → List ColumnDefinition → Option (Option ChangeStatus) → String → String
unfolding describe
column_note current previous (some (some modified)) name = elim (column_named name previous) [
  | none ↦ ""
  | some old ↦ elim (column_named name current) [
    | none ↦ ""
    | some next ↦ "Before: " & describe old & "\nAfter: " & describe next
  ]
]
column_note current previous (some (some deleted)) name = "Deleted field · Before snapshot"
column_note current previous _ name = ""

unfoldable pub rename_notes : String × String → List (String × String)
rename_notes (old_name, new_name) =
    (old_name, "Before name; inferred rename to " & new_name)
    ∷ (new_name, "Inferred rename from " & old_name)
    ∷ []
