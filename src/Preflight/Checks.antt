-- ===== src/Preflight/Checks.antt =====
-- preflight/schema-preflight.ts, `runSchemaPreflight`: the body of the loop over the tables.
use Prim.Native.Char.{code}
use nodal_studio.Prelude.{
  ℕ, suc, String, Bool, true, false, not, List, [], ◌∷◌, ◌++◌, Option, none, some, is_some, filter,
  map, length, contains, of_list, lookup, insert, of_pairs, string_eq, ◌||◌, ◌&◌, ◌+◌, ltb,
  if◌then◌else◌,
}
use nodal_studio.Model.{
  TableDefinition, ColumnDefinition, PrimaryKey, table_key_eq, TableKind, ordinary, partitioned,
}
use nodal_studio.Preflight.Mysql.{Host}
use nodal_studio.Preflight.Report.{
  Progress, Observation, PreflightFinding, report, finding_of, check_one, qualified, design,
  suspected, style,
}

abbrev pub kind_name : TableKind → String
kind_name ordinary = "ordinary"
kind_name partitioned = "partitioned"
kind_name TableKind.foreign = "foreign"

abbrev pub is_true : Option Bool → Bool
is_true none = false
is_true (some b) = b

abbrev pub is_virtual : TableDefinition → Bool
is_virtual table = elim table.sqlite [ none ↦ false | some s ↦ s.virtual_table ]

abbrev pub columns_missing : TableDefinition → Bool
columns_missing table = elim table.sqlite [ none ↦ false | some s ↦ is_true s.columns_unavailable ]

abbrev pub is_foreign : TableKind → Bool
is_foreign TableKind.foreign = true
is_foreign other = false

-- `table.columns` by name: a later column replaces an earlier one of the same name.
abbrev pub column_map : TableDefinition → List (String × ColumnDefinition)
column_map table = of_pairs (map (λ column. (column.name, column)) table.columns)

-- The names that the table has no column for.
abbrev pub absent : List String → TableDefinition → List String
absent names table = filter (λ name. not (is_some (lookup name (column_map table)))) names

abbrev pub has_repetition : List String → Bool
has_repetition names = ltb (length (of_list names)) (length names)

abbrev pub is_nothing : List String → Bool
is_nothing [] = true
is_nothing (name ∷ names) = false

unfoldable pub has_space : (ℕ → Bool) → String → Bool
has_space p String.[] = false
has_space p (String.◌∷◌ c s) = p (code c) || has_space p s

module _ (host : Host) where
  abbrev pub list_text : List String → String
  list_text names = host.stringify (map (λ name. some name) names)

  abbrev pub presence_observation : TableDefinition → Observation
  presence_observation table = record {
    rule_id = "table-primary-key";
    object = none;
    detail = "missing";
    outcome = design;
    message = "No primary key is captured for this table.";
    evidence = ("Table kind: " & kind_name table.table_kind) ∷ "Snapshot primaryKey: absent" ∷ [];
    recommendation =
        "Review whether this table needs a stable row identifier. A primary key is optional; views and some analytical tables use other designs.";
    related_tables = [];
  }

  -- The presence of a primary key.
  unfoldable pub check_presence : TableDefinition → Progress → Progress
  unfolding report
  check_presence table p =
      if is_foreign table.table_kind || is_virtual table
      then record p { keys = record p.keys { skipped = suc p.keys.skipped } }
      else let counted = record p { keys = check_one p.keys } in
        if is_some table.primary_key
        then counted
        else report host table (presence_observation table) counted

  abbrev pub key_observation : TableDefinition → PrimaryKey → Observation
  key_observation own key = record {
    rule_id = "key-references";
    object = some key.name;
    detail = "pk-columns";
    outcome = suspected;
    message = "The captured primary key column list is inconsistent with the table metadata.";
    evidence =
        ("Primary key columns: " & list_text key.columns)
        ∷ ("Missing columns: " & list_text (absent key.columns own))
        ∷ [];
    recommendation =
        "Refresh metadata or review capture coverage before drawing conclusions about the live database.";
    related_tables = [];
  }

  -- `own` is the table whose columns the key's are looked up in.
  unfoldable pub check_primary_key : TableDefinition → TableDefinition → Progress → Progress
  unfolding report lookup insert contains
  check_primary_key table own p = elim table.primary_key [
    | none ↦ p
    | some key ↦
        let counted = record p { references = check_one p.references } in
        if is_nothing key.columns
          || has_repetition key.columns
          || not (is_nothing (absent key.columns own))
        then report host table (key_observation own key) counted
        else counted
  ]

  abbrev pub name_observation : Bool → String → Observation
  name_observation is_table name = record {
    rule_id = "name-spaces";
    object = none;
    detail = list_text ((if is_table then "table" else "column") ∷ name ∷ []);
    outcome = style;
    message = "This name contains whitespace and may require quoting in SQL.";
    evidence = ((if is_table then "Table" else "Column") & " name: " & host.quote name) ∷ [];
    recommendation =
        "Keep quoted names if intentional, or follow your team's naming convention. No rename is performed.";
    related_tables = [];
  }

  -- The finding of a column has the column's key.
  abbrev pub name_finding : TableDefinition → Bool × String → PreflightFinding
  name_finding table (true, name) = finding_of host table (name_observation true name)
  name_finding table (false, name) = record (finding_of host table (name_observation false name)) {
    object_key = record { kind = "column"; schema = qualified table; name = name };
  }

  unfoldable pub check_names : TableDefinition → Progress → Progress
  unfolding finding_of has_space
  check_names table p =
      let spaced =
        filter (λ entry. has_space host.is_space entry.1)
          ((true, table.key.name) ∷ map (λ column. (false, column.name)) table.columns) in
      record p {
        names = record p.names { checked = p.names.checked + (1 + length table.columns) };
        findings = p.findings ++ map (name_finding table) spaced;
      }
