-- ===== src/Discovery/Known.antt =====
-- graph/business-discovery.ts, `knownRelationships`: the foreign keys and active logical relationships
-- whose ends a snapshot has, and a gap for each of the others. `stringify` is `JSON.stringify` of a
-- list of texts, `lower` is `toLowerCase` and `precedes` says that `localeCompare` returns at most 0.
pub mod Laws
use nodal_studio.Prelude.{
  ℕ, suc, ltb, eqb, String, Bool, true, false, not, ◌&&◌, List, [], ◌∷◌, ◌++◌, map, Option, none,
  some, lookup, find, any, all, filter, fold, flat_map, length, sort, is_some, if◌then◌else◌, ◌==◌,
  ◌&◌, string_eq,
}
use nodal_studio.Model.{
  TableKey, TableDefinition, ColumnDefinition, ForeignKeyDefinition, DatabaseSnapshot,
  LogicalRelationship, active, object_key, table_key_eq, strings_eq, status_eq, endpoint_eq,
}
use nodal_studio.Graph.Comparison.{TableMap, map_of, tables_of}
use nodal_studio.Discovery.{
  KnownRelationship, RelationshipKind, physical, logical, object_id, object_label, table_key,
}

abbrev has_column : List ColumnDefinition → String → Bool
has_column columns name = any (λ c. c.name == name) columns

-- `tables.get(objectId(...))?.columns.some(...)`
abbrev pub in_table : TableMap → TableKey → String → Bool
in_table tables id name = elim (lookup id tables) [
  | none ↦ false
  | some t ↦ has_column t.columns name
]

unfoldable pub is_valid : TableMap → KnownRelationship → Bool
is_valid tables r =
    ltb 0 (length r.source_columns)
    && (eqb (length r.source_columns) (length r.target_columns)
        && (all (in_table tables (object_id r.source)) r.source_columns
            && all (in_table tables (object_id r.target)) r.target_columns))

abbrev pub is_physical : RelationshipKind → Bool
is_physical physical = true
is_physical logical = false

unfoldable pub is_self : KnownRelationship → Bool
is_self r = object_id r.source == object_id r.target && r.source_columns == r.target_columns

-- The two lists that the loops fill.
pub record Found : Type 0 where
  pub relationships : List KnownRelationship
  pub gaps : List String

module _ (stringify : List String → String) (lower : String → String)
    (precedes : String → String → Bool) where
  abbrev pub of_foreign_key : TableDefinition → ForeignKeyDefinition → KnownRelationship
  of_foreign_key table fk = record {
    id = "physical|" & stringify (table.key.schema ∷ table.key.name ∷ fk.name ∷ []);
    kind = physical;
    source = object_key table.key;
    target = table_key fk.referenced_schema fk.referenced_table;
    source_columns = fk.columns;
    target_columns = fk.referenced_columns;
  }

  abbrev pub of_logical : LogicalRelationship → KnownRelationship
  of_logical r = record {
    id = "logical|" & r.id;
    kind = logical;
    source = table_key r.source.schema r.source.table;
    target = table_key r.target.schema r.target.table;
    source_columns = r.source.columns;
    target_columns = r.target.columns;
  }

  unfoldable pub add_foreign_key : TableMap → TableDefinition → Found → ForeignKeyDefinition → Found
  add_foreign_key tables table found fk =
      if is_valid tables (of_foreign_key table fk)
      then record found { relationships = found.relationships ++ of_foreign_key table fk ∷ [] }
      else record found {
        gaps =
            found.gaps
            ++ (object_label (object_key table.key)
                & " · "
                & fk.name
                & ": endpoint table or field is missing from this snapshot.")
              ∷ [];
      }

  unfoldable pub add_table : TableMap → Found → TableKey × TableDefinition → Found
  unfolding add_foreign_key
  add_table tables found (id, table) = fold (add_foreign_key tables table) found table.foreign_keys

  abbrev column_in : TableMap → TableKey → String → Option ColumnDefinition
  column_in tables id name = elim (lookup id tables) [
    | none ↦ none
    | some t ↦ find (λ c. c.name == name) t.columns
  ]

  abbrev same_types : Option ColumnDefinition → Option ColumnDefinition → Bool
  same_types (some a) (some b) =
      lower a.type_schema == lower b.type_schema && lower a.type_name == lower b.type_name
  same_types _ _ = false

  -- `sourceColumns.every((name, index) => ...)` against the column of the same index; both lists are
  -- of one length where this runs.
  abbrev pub pairs_agree : TableMap → TableKey → TableKey → List String → List String → Bool
  pairs_agree tables source target [] others = true
  pairs_agree tables source target (name ∷ names) [] = false
  pairs_agree tables source target (name ∷ names) (other ∷ others) =
      same_types (column_in tables source name) (column_in tables target other)
      && pairs_agree tables source target names others

  unfoldable pub is_compatible : TableMap → KnownRelationship → Bool
  is_compatible tables r =
      is_valid tables r
      && pairs_agree tables (object_id r.source) (object_id r.target) r.source_columns
          r.target_columns

  abbrev same_ends : LogicalRelationship → LogicalRelationship → Bool
  same_ends a b = a.source == b.source && a.target == b.target

  unfoldable pub is_duplicate : List LogicalRelationship → LogicalRelationship → Bool
  is_duplicate relations relation =
      any (λ other. not (other.id == relation.id) && same_ends other relation) relations

  unfoldable pub is_physical_already : List KnownRelationship → KnownRelationship → Bool
  is_physical_already relationships r =
      any
        (λ p.
          is_physical p.kind
          && (object_id p.source == object_id r.source
              && (object_id p.target == object_id r.target
                  && (p.source_columns == r.source_columns
                      && p.target_columns == r.target_columns))))
        relationships

  unfoldable pub add_logical :
      TableMap → List LogicalRelationship → Found → LogicalRelationship → Found
  add_logical tables relations found relation =
      let r = of_logical relation in
      if is_compatible tables r
        && (not (is_duplicate relations relation)
            && (not (is_physical_already found.relationships r) && not (is_self r)))
      then record found { relationships = found.relationships ++ r ∷ [] }
      else record found {
        gaps =
            found.gaps
            ++ (object_label r.source
                & " → "
                & object_label r.target
                & ": logical relationship needs review or has been superseded.")
              ∷ [];
      }

  abbrev pub is_active : DatabaseSnapshot → LogicalRelationship → Bool
  is_active snapshot relation =
      relation.source_id == snapshot.source_id && relation.status == active

  unfoldable pub known_relationships : DatabaseSnapshot → List LogicalRelationship → Found
  unfolding add_table add_logical
  known_relationships snapshot relations =
      let tables = map_of (tables_of snapshot) in
      let found =
        fold (add_logical tables relations)
          (fold (add_table tables) (record { relationships = []; gaps = [] }) tables)
          (filter (is_active snapshot) relations) in
      record found { relationships = sort (λ a b. precedes a.id b.id) found.relationships }
