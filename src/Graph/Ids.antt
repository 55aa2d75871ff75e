-- ===== src/Graph/Ids.antt =====
-- graph/schema-graph.ts: the identifiers of tables and relationships in a diagram.
use nodal_studio.Prelude.{String, ◌&◌}
use nodal_studio.Model.{TableDefinition}

unfoldable pub table_node_id : String → String → String
table_node_id schema table = schema & "." & table

unfoldable pub logical_relationship_key : String → String → String → String → String
logical_relationship_key source_id source_column target_id target_column =
    source_id & "[" & source_column & "]->" & target_id & "[" & target_column & "]"

-- `{ schema, table }`, a table with the name of the schema that lists it.
pub record SchemaTable : Type 0 where
  pub schema : String
  pub table : TableDefinition

abbrev pub node_id : SchemaTable → String
node_id t = table_node_id t.schema t.table.key.name
