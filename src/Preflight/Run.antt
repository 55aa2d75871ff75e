-- ===== src/Preflight/Run.antt =====
-- preflight/schema-preflight.ts: `runSchemaPreflight`.
use nodal_studio.Prelude.{
  ℕ, String, Bool, true, false, List, [], ◌∷◌, Option, or_else, map, fold, flat_map, length, lookup,
  insert, of_pairs, sort, string_eq, ◌&&◌, ◌||◌, ◌+◌, eqb, ltb, if◌then◌else◌,
}
use nodal_studio.Model.{
  DatabaseSnapshot, TableDefinition, TableKey, table_key_eq, DatabaseType, postgre_sql, my_sql,
  sqlite,
}
use nodal_studio.Preflight.Mysql.{Host}
use nodal_studio.Preflight.Report.{
  Progress, PreflightFinding, PreflightReport, PreflightCoverage, Counts, zero_counts, coverage_of,
  rank,
}
use nodal_studio.Preflight.Checks.{check_presence, check_primary_key, check_names, is_true}
use nodal_studio.Preflight.Keys.{Scope, check_foreign_key}

abbrev pub tables_in : DatabaseSnapshot → List TableDefinition
tables_in snapshot = flat_map (λ schema. schema.tables) snapshot.schemas

abbrev pub total {ℓ} : {A : Type ℓ} → (A → ℕ) → List A → ℕ
total f xs = fold (λ count x. count + f x) 0 xs

-- The order of the findings: by rank, then by identifier.
abbrev pub not_after : Host → PreflightFinding → PreflightFinding → Bool
not_after host a b =
    ltb (rank a.severity) (rank b.severity)
    || (eqb (rank a.severity) (rank b.severity) && host.locale_le a.id b.id)

abbrev pub dialect_name : DatabaseType → String
dialect_name postgre_sql = "PostgreSQL"
dialect_name my_sql = "MySQL"
dialect_name sqlite = "SQLite"

abbrev pub is_postgres : DatabaseType → Bool
is_postgres postgre_sql = true
is_postgres other = false

abbrev pub is_mysql : DatabaseType → Bool
is_mysql my_sql = true
is_mysql other = false

-- The coverage of a rule on types: of the loops if it applies, else all foreign keys are skipped.
abbrev pub type_counts : Bool → ℕ → Counts → Counts
type_counts true keys counts = counts
type_counts false keys counts = record zero_counts { skipped = keys }

module _ (host : Host) (snapshot : DatabaseSnapshot) (name_spaces : Option Bool) where
  abbrev pub table_map : List (TableKey × TableDefinition)
  table_map = of_pairs (map (λ table. (table.key, table)) (tables_in snapshot))

  abbrev pub scope_of : TableDefinition → Scope
  scope_of table = record {
    tables = table_map;
    dialect = snapshot.database.database_type;
    table = table;
    own = or_else (lookup table.key table_map) table;
  }

  -- The body of the loop over the tables.
  unfoldable pub check_table : Progress → TableDefinition → Progress
  unfolding check_presence check_primary_key check_names check_foreign_key lookup insert
  check_table p table =
      let keyed = check_primary_key host table (scope_of table).own (check_presence host table p) in
      let named = if is_true name_spaces then check_names host table keyed else keyed in
      fold (check_foreign_key host (scope_of table)) named table.foreign_keys

  abbrev pub start : Progress
  start = record {
    findings = [];
    keys = zero_counts;
    references = zero_counts;
    types = zero_counts;
    names = zero_counts;
  }

  abbrev pub key_total : ℕ
  key_total = total (λ table. length table.foreign_keys) (tables_in snapshot)

  abbrev pub coverage_list : Progress → List PreflightCoverage
  coverage_list p =
      coverage_of "table-primary-key" "Primary key presence"
        "Ordinary and partitioned tables only. A missing primary key is a design suggestion; foreign tables and views are outside this rule."
        p.keys
      ∷ coverage_of "key-references" "Key references"
          "Checks captured PK/FK column lists and endpoints. A target absent from this snapshot may be outside introspection scope; it is not proof of a dangling database constraint."
          p.references
      ∷ coverage_of "postgres-fk-types" "PostgreSQL FK types"
          (if is_postgres snapshot.database.database_type
            then "Checks captured built-in type identities and flags different known type families for review. Cross-type operators, casts, domains, collation and constraint validation state are not captured."
            else "Not applicable: this is not a PostgreSQL snapshot.")
          (type_counts (is_postgres snapshot.database.database_type) key_total p.types)
      ∷ coverage_of "mysql-fk-types" "MySQL FK types"
          (if is_mysql snapshot.database.database_type
            then "Checks integer size/sign and DECIMAL precision/scale/sign. String length alone is not a mismatch. Character set, collation, storage engine and server-specific restrictions are not captured."
            else "Not applicable: this is not a MySQL snapshot.")
          (type_counts (is_mysql snapshot.database.database_type) key_total p.types)
      ∷ coverage_of "name-spaces" "Names containing whitespace"
          (if is_true name_spaces
            then "Optional style hint for table and column names. Quoted identifiers containing whitespace are legal; this is not a database error."
            else "Disabled by default. Enable the optional table/column naming style hint.")
          p.names
      ∷ []

  abbrev pub outcome : Progress
  outcome = fold check_table start (tables_in snapshot)

  unfoldable pub run_schema_preflight : PreflightReport
  unfolding check_table sort
  run_schema_preflight = record {
    dialect = dialect_name snapshot.database.database_type;
    table_count = length (tables_in snapshot);
    column_count = total (λ table. length table.columns) (tables_in snapshot);
    foreign_key_count = key_total;
    excluded_view_count = total (λ schema. length schema.views) snapshot.schemas;
    findings = sort (not_after host) outcome.findings;
    coverage = coverage_list outcome;
  }
