-- ===== src/Graph/Diagram/Shown.antt =====
-- graph/schema-graph.ts, `buildSchemaGraph` up to `referencedColumns`: the tables and relationships that are shown, and
-- their columns. Texts are trimmed and lowered by the host, whose Unicode tables are a parameter.
use nodal_studio.Prelude.{
  ℕ, suc, String, Bool, true, false, not, List, [], ◌∷◌, ◌++◌, none, some, or_else, is_some, map,
  filter, any, all, fold, flat_map, contains, of_list, add_all, lookup, insert, of_pairs, ◌==◌,
  string_eq, ◌&&◌, ◌||◌, if◌then◌else◌, includes,
}
use nodal_studio.Model.{
  TableDefinition, DatabaseSnapshot, LogicalRelationship, RelationshipEndpoint,
  ForeignKeyDefinition,
}
use nodal_studio.Graph.Ids.{SchemaTable, node_id, table_node_id}
use nodal_studio.Graph.Related.{related_table_ids, target_id, endpoint_id, is_live}
use nodal_studio.Graph.Inference.{
  InferredRelationship, infer_relationships, inferred_relationship_rule_key,
}
use nodal_studio.Graph.Comparison.{ComparisonTable, comparing_changes}
use nodal_studio.Graph.Diagram.{SchemaGraphOptions, is_on, is_not_off, is_given}

pub record Host : Type 0 where
  pub trim : String → String
  pub to_locale_lower_case : String → String

abbrev pub id_of : ComparisonTable → String
id_of t = table_node_id t.schema t.table.key.name

abbrev pub listed : ComparisonTable → SchemaTable
listed t = record { schema = t.schema; table = t.table }

abbrev pub after_tables : DatabaseSnapshot → List SchemaTable
after_tables snapshot =
    flat_map (λ schema. map (λ table. record { schema = schema.name; table = table }) schema.tables)
      snapshot.schemas

-- `endpoint.columns.every((name) => table?.columns.some(...))`
abbrev pub endpoint_captured : List (String × TableDefinition) → RelationshipEndpoint → Bool
endpoint_captured tables endpoint = elim (lookup (endpoint_id endpoint) tables) [
  | none ↦ all (λ name. false) endpoint.columns
  | some table ↦ all (λ name. any (λ column. column.name == name) table.columns) endpoint.columns
]

unfoldable pub shown_logical : DatabaseSnapshot → SchemaGraphOptions → List LogicalRelationship
unfolding lookup insert
shown_logical snapshot options =
    let current = of_pairs (map (λ t. (node_id t, t.table)) (after_tables snapshot)) in
    filter
      (λ r.
        not (is_some (comparing_changes snapshot options.change_set))
        || (endpoint_captured current r.source && endpoint_captured current r.target))
      (or_else options.logical_relationships [])

-- The set of identifiers without those outside the tables around the roots.
abbrev pub restrict_to :
    List SchemaTable → List String → ℕ → List LogicalRelationship → List String → List String
restrict_to tables roots depth logical ids =
    filter (λ id. contains id (related_table_ids tables roots depth logical)) ids

abbrev pub is_empty_list : List String → Bool
is_empty_list [] = true
is_empty_list (id ∷ ids) = false

module _ (host : Host) where
  abbrev pub matches_text : String → String → Bool
  matches_text query value = includes query (host.to_locale_lower_case value)

  unfoldable pub table_matches : String → TableDefinition → String → Bool
  unfolding includes
  table_matches schema table query =
      if query == ""
      then true
      else matches_text query schema
        || matches_text query table.key.name
        || (elim table.comment [ none ↦ false | some comment ↦ matches_text query comment ])
        || any
            (λ column. matches_text query column.name || matches_text query column.formatted_type)
            table.columns

  abbrev pub normalized_query : SchemaGraphOptions → String
  normalized_query options = elim options.query [
    | none ↦ ""
    | some query ↦ host.to_locale_lower_case (host.trim query)
  ]

  unfoldable pub focused :
      List ComparisonTable
      → SchemaGraphOptions
      → List LogicalRelationship
      → List String
      → List String
  unfolding contains
  focused tables options logical ids = elim options.focus_node_id [
    | none ↦ ids
    | some focus ↦
        if is_given (some focus) && contains focus (of_list (map id_of tables))
        then restrict_to (map listed tables) (focus ∷ []) 1 logical ids
        else ids
  ]

  unfoldable pub rooted :
      List ComparisonTable
      → SchemaGraphOptions
      → List LogicalRelationship
      → List String
      → List String
  rooted tables options logical ids = elim options.root_node_ids [
    | none ↦ ids
    | some roots ↦
        if is_empty_list roots
        then ids
        else restrict_to (map listed tables) roots (or_else options.relationship_depth 1) logical
            ids
  ]

  -- `includedIds`
  unfoldable pub included_ids :
      List ComparisonTable → SchemaGraphOptions → List LogicalRelationship → List String
  unfolding contains focused rooted table_matches
  included_ids tables options logical =
      let matching = of_list (
        map id_of
          (filter (λ t. table_matches t.schema t.table (normalized_query options)) tables)) in
      rooted tables options logical (focused tables options logical matching)

-- `tables`
abbrev pub shown_tables : List String → List ComparisonTable → List ComparisonTable
shown_tables included tables = filter (λ t. contains (id_of t) included) tables

-- `inferredRelationships`: between shown tables, and not ignored by itself or by its rule.
unfoldable pub shown_inferred :
    List String → List String → List SchemaTable → List InferredRelationship
unfolding contains
shown_inferred included ignored tables =
    filter
      (λ r.
        contains r.source_id included
        && contains r.target_id included
        && not (contains r.relationship_key (of_list ignored))
        && not (contains (inferred_relationship_rule_key r) (of_list ignored)))
      (infer_relationships tables)

-- `Map<string, string[]>` with `push`, and `Map<string, Set<string>>` with `add`.
abbrev pub ColumnMap : Type 0
ColumnMap = List (String × List String)

abbrev pub columns_at : ColumnMap → String → List String
columns_at m id = or_else (lookup id m) []

abbrev pub push_columns : String → List String → ColumnMap → ColumnMap
push_columns id names m = insert id (columns_at m id ++ names) m

abbrev pub add_columns : String → List String → ColumnMap → ColumnMap
add_columns id names m = insert id (add_all (columns_at m id) names) m

-- The maps of columns and the count that the loops fill.
pub record ColumnMaps : Type 0 where
  pub inferred_columns : ColumnMap
  pub logical_columns : ColumnMap
  pub referenced_columns : ColumnMap
  pub physical_count : ℕ

unfoldable pub visit_foreign_key : List String → ColumnMaps → ForeignKeyDefinition → ColumnMaps
unfolding contains insert lookup
visit_foreign_key included m key =
    if contains (target_id key) included
    then record m {
      physical_count = suc m.physical_count;
      referenced_columns = add_columns (target_id key) key.referenced_columns m.referenced_columns;
    }
    else m

unfoldable pub visit_inferred : ColumnMaps → InferredRelationship → ColumnMaps
unfolding contains insert lookup
visit_inferred m r = record m {
  inferred_columns = push_columns r.source_id (r.column ∷ []) m.inferred_columns;
  referenced_columns = add_columns r.target_id (r.referenced_column ∷ []) m.referenced_columns;
}

unfoldable pub visit_logical : List String → ColumnMaps → LogicalRelationship → ColumnMaps
unfolding contains insert lookup
visit_logical included m r =
    if is_live r.status
      && contains (endpoint_id r.source) included
      && contains (endpoint_id r.target) included
    then record m {
      logical_columns = push_columns (endpoint_id r.source) r.source.columns m.logical_columns;
      referenced_columns = add_columns (endpoint_id r.target) r.target.columns m.referenced_columns;
    }
    else m

unfoldable pub column_maps :
    SchemaGraphOptions
    → List String
    → List ComparisonTable
    → List InferredRelationship
    → List LogicalRelationship
    → ColumnMaps
unfolding visit_foreign_key visit_inferred visit_logical
column_maps options included tables inferred logical =
    let physical =
      fold (λ m t. fold (visit_foreign_key included) m t.table.foreign_keys)
        (record {
          inferred_columns = [];
          logical_columns = [];
          referenced_columns = [];
          physical_count = 0;
        })
        tables in
    let inferring =
      if is_on options.include_inferred_relationships
      then fold visit_inferred physical inferred
      else physical in
    if is_not_off options.include_logical_relationships
    then fold (visit_logical included) inferring logical
    else inferring
