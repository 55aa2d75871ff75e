-- ===== src/Preflight/Keys.antt =====
-- preflight/schema-preflight.ts, `runSchemaPreflight`: the body of the loop over the foreign keys of a table.
use nodal_studio.Prelude.{
  ℕ, suc, String, Bool, false, not, List, [], ◌∷◌, ◌++◌, Option, none, some, is_some, length,
  lookup, insert, contains, string_eq, ◌&&◌, ◌||◌, ◌&◌, ◌+◌, eqb, ltb, if◌then◌else◌, decimal,
}
use nodal_studio.Model.{
  TableDefinition, ColumnDefinition, ForeignKeyDefinition, TableKey, table_key_eq, DatabaseType,
  postgre_sql, my_sql, sqlite,
}
use nodal_studio.Preflight.{TypeComparison, TypeOutcome}
use nodal_studio.Preflight.Postgres.{compare_postgres}
use nodal_studio.Preflight.Mysql.{Host, compare_mysql}
use nodal_studio.Preflight.Report.{
  Progress, Observation, PreflightOutcome, report, check_one, miss_one, suspected, insufficient,
}
use nodal_studio.Preflight.Checks.{
  column_map, absent, has_repetition, is_nothing, columns_missing, list_text,
}

-- What the loop reads: the tables by key, the dialect, and the table with the columns of its key.
pub record Scope : Type 0 where
  pub tables : List (TableKey × TableDefinition)
  pub dialect : DatabaseType
  pub table : TableDefinition
  pub own : TableDefinition

abbrev pub target_of : Scope → ForeignKeyDefinition → Option TableDefinition
target_of scope key =
    lookup (record { schema = key.referenced_schema; name = key.referenced_table }) scope.tables

abbrev pub related_keys : Option TableDefinition → List TableKey
related_keys none = []
related_keys (some target) = target.key ∷ []

abbrev pub absent_in : List String → Option TableDefinition → List String
absent_in names none = []
absent_in names (some target) = absent names target

abbrev pub is_missing : Option TableDefinition → Bool
is_missing none = false
is_missing (some target) = columns_missing target

-- The two lists have one length, which is not 0, and no name twice.
abbrev pub valid_lists : ForeignKeyDefinition → Bool
valid_lists key =
    ltb 0 (length key.columns)
    && eqb (length key.columns) (length key.referenced_columns)
    && not (has_repetition key.columns)
    && not (has_repetition key.referenced_columns)

-- `pg`, `mysql` or undefined.
abbrev pub type_rule : DatabaseType → Option String
type_rule postgre_sql = some "postgres-fk-types"
type_rule my_sql = some "mysql-fk-types"
type_rule sqlite = none

abbrev pub outcome_of : TypeOutcome → PreflightOutcome
outcome_of TypeOutcome.suspected = suspected
outcome_of TypeOutcome.insufficient = insufficient

-- The counter that a comparison raises.
abbrev pub count_outcome : Option TypeOutcome → Progress → Progress
count_outcome (some TypeOutcome.insufficient) p = record p { types = miss_one p.types }
count_outcome other p = record p { types = check_one p.types }

abbrev pub type_text : ColumnDefinition → String
type_text column = column.type_schema & "." & column.type_name & " (" & column.formatted_type & ")"

module _ (host : Host) where
  abbrev pub key_evidence : ForeignKeyDefinition → List String
  key_evidence key =
      ("Foreign key: " & key.name)
      ∷ ("Source columns: " & list_text host key.columns)
      ∷ ("Target: " & list_text host (key.referenced_schema ∷ key.referenced_table ∷ []))
      ∷ ("Target columns: " & list_text host key.referenced_columns)
      ∷ []

  abbrev pub compare_types : DatabaseType → ColumnDefinition → ColumnDefinition → TypeComparison
  compare_types postgre_sql source target = compare_postgres source target
  compare_types other source target = compare_mysql host source target

  abbrev pub pair_observation :
      ForeignKeyDefinition
      → String
      → TableDefinition
      → ℕ
      → String
      → ColumnDefinition
      → ColumnDefinition
      → TypeComparison
      → TypeOutcome
      → Observation
  pair_observation key rule target index name source dest comparison outcome = record {
    rule_id = rule;
    object = some key.name;
    detail = "pair-" & decimal index;
    outcome = outcome_of outcome;
    message = comparison.message;
    evidence =
        key_evidence key
        ++ ("Pair " & decimal (index + 1) & ": " & host.quote name & " → " & host.quote dest.name)
          ∷ ("Source type: " & type_text source)
          ∷ ("Target type: " & type_text dest)
          ∷ [];
    recommendation = comparison.recommendation;
    related_tables = target.key ∷ [];
  }

  -- The comparison of one pair of columns.
  unfoldable pub check_pair :
      Scope
      → ForeignKeyDefinition
      → String
      → TableDefinition
      → ℕ
      → String
      → ColumnDefinition
      → ColumnDefinition
      → Progress
      → Progress
  unfolding report compare_postgres compare_mysql decimal
  check_pair scope key rule target index name source dest p =
      let comparison = compare_types scope.dialect source dest in
      let counted = count_outcome comparison.outcome p in
      elim comparison.outcome [
        | none ↦ counted
        | some outcome ↦
            report host scope.table
              (pair_observation key rule target index name source dest comparison outcome) counted
      ]

  -- The loop over the pairs, whose columns are all captured where it runs.
  unfoldable pub check_pairs :
      Scope
      → ForeignKeyDefinition
      → String
      → TableDefinition
      → ℕ
      → List String
      → List String
      → Progress
      → Progress
  unfolding check_pair lookup insert
  check_pairs scope key rule target index [] others p = p
  check_pairs scope key rule target index (name ∷ names) [] p = p
  check_pairs scope key rule target index (name ∷ names) (other ∷ others) p =
      let next : Progress = elim (lookup name (column_map scope.own)) [
        | none ↦ p
        | some source ↦ elim (lookup other (column_map target)) [
          | none ↦ p
          | some dest ↦ check_pair scope key rule target index name source dest p
        ]
      ] in
      check_pairs scope key rule target (suc index) names others next

  abbrev pub is_sound : Scope → ForeignKeyDefinition → Bool
  is_sound scope key =
      valid_lists key
      && is_nothing (absent key.columns scope.own)
      && is_nothing (absent_in key.referenced_columns (target_of scope key))

  -- The rule on types, which has no say on a key that is unsound or whose target is not captured.
  unfoldable pub check_types : Scope → ForeignKeyDefinition → Progress → Progress
  unfolding check_pairs lookup insert contains
  check_types scope key p = elim (type_rule scope.dialect) [
    | none ↦ p
    | some rule ↦ elim (target_of scope key) [
      | none ↦ record p { types = miss_one p.types }
      | some target ↦
          if is_sound scope key
          then check_pairs scope key rule target 0 key.columns key.referenced_columns p
          else record p { types = miss_one p.types }
    ]
  ]

  abbrev pub unavailable_observation : Scope → ForeignKeyDefinition → Observation
  unavailable_observation scope key = record {
    rule_id = "key-references";
    object = some key.name;
    detail = "columns-unavailable";
    outcome = insufficient;
    message = "Column metadata is unavailable for a foreign-key endpoint.";
    evidence = key_evidence key;
    recommendation =
        "Refresh metadata with the required SQLite module before checking these columns.";
    related_tables = related_keys (target_of scope key);
  }

  abbrev pub columns_observation : Scope → ForeignKeyDefinition → Observation
  columns_observation scope key = record {
    rule_id = "key-references";
    object = some key.name;
    detail = "fk-columns";
    outcome = suspected;
    message = "The captured foreign key column lists are inconsistent.";
    evidence =
        key_evidence key
        ++ ("Missing source columns: " & list_text host (absent key.columns scope.own))
          ∷ ("Missing target columns: "
              & list_text host (absent_in key.referenced_columns (target_of scope key)))
          ∷ [];
    recommendation =
        "Review the captured column lists and refresh metadata. A snapshot inconsistency does not establish that a physical constraint is invalid.";
    related_tables = related_keys (target_of scope key);
  }

  abbrev pub target_observation : ForeignKeyDefinition → Observation
  target_observation key = record {
    rule_id = "key-references";
    object = some key.name;
    detail = "target-unavailable";
    outcome = insufficient;
    message = "The referenced table is outside the loaded snapshot.";
    evidence = key_evidence key;
    recommendation =
        "Capture the referenced schema/table to inspect it. Cross-schema references can be valid even when their target is not captured.";
    related_tables = [];
  }

  unfoldable pub check_lists : Scope → ForeignKeyDefinition → Progress → Progress
  unfolding report lookup insert contains
  check_lists scope key p =
      if is_sound scope key then p else report host scope.table (columns_observation scope key) p

  unfoldable pub check_target : Scope → ForeignKeyDefinition → Progress → Progress
  unfolding report lookup
  check_target scope key p =
      if is_some (target_of scope key)
      then p
      else report host scope.table (target_observation key)
          (record p { references = miss_one p.references })

  unfoldable pub count_target : Scope → ForeignKeyDefinition → Progress → Progress
  unfolding lookup
  count_target scope key p =
      if is_some (target_of scope key) then record p { references = check_one p.references } else p

  unfoldable pub check_foreign_key : Scope → Progress → ForeignKeyDefinition → Progress
  unfolding report check_lists check_target check_types count_target lookup
  check_foreign_key scope p key =
      if columns_missing scope.table || is_missing (target_of scope key)
      then report host scope.table (unavailable_observation scope key)
          (record p { references = miss_one p.references })
      else check_types scope key
          (check_target scope key (check_lists scope key (count_target scope key p)))
