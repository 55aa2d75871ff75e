-- ===== src/Samples.antt =====
-- A small database: users, orders and items, with a foreign key from orders to users and columns
-- that are named after tables.
use nodal_studio.Prelude.{ℕ, String, false, List, [], ◌∷◌, none, some}
use nodal_studio.Model.{
  ColumnDefinition, ForeignKeyDefinition, TableDefinition, ordinary, DatabaseSnapshot, postgre_sql,
  LogicalRelationship, LogicalRelationshipStatus, one_to_many, manual, RelationshipEndpoint,
  SchemaChangeSet,
}
use nodal_studio.Graph.Ids.{SchemaTable}

abbrev pub column : String → ℕ → String → ColumnDefinition
column name position type = record {
  name = name;
  ordinal_position = position;
  formatted_type = type;
  type_schema = "pg_catalog";
  type_name = type;
  nullable = false;
  default_value = none;
  identity = none;
  generated = false;
  comment = none;
}

abbrev pub key_to : String → String → String → ForeignKeyDefinition
key_to name source target = record {
  name = name;
  columns = source ∷ [];
  referenced_schema = "public";
  referenced_table = target;
  referenced_columns = "id" ∷ [];
  on_update = "noAction";
  on_delete = "noAction";
  match_type = "simple";
  deferrable = false;
  initially_deferred = false;
}

abbrev pub table : String → List ColumnDefinition → List ForeignKeyDefinition → TableDefinition
table name columns keys = record {
  sqlite = none;
  key = record { schema = "public"; name = name };
  table_kind = ordinary;
  columns = columns;
  primary_key = some (record { name = "pk"; columns = "id" ∷ [] });
  foreign_keys = keys;
  indexes = [];
  constraints = [];
  comment = none;
}

abbrev pub users : TableDefinition
users = table "users" (column "id" 1 "int8" ∷ []) []

abbrev pub orders : TableDefinition
orders =
    table "orders" (column "id" 1 "int8" ∷ column "user_id" 2 "int8" ∷ [])
      (key_to "orders_user" "user_id" "users" ∷ [])

abbrev pub items : TableDefinition
items = table "items" (column "id" 1 "int8" ∷ column "order_id" 2 "int4" ∷ []) []

abbrev pub listed : TableDefinition → SchemaTable
listed t = record { schema = "public"; table = t }

abbrev pub sample_tables : List SchemaTable
sample_tables = listed users ∷ listed orders ∷ listed items ∷ []

abbrev pub snapshot : String → List TableDefinition → DatabaseSnapshot
snapshot id tables = record {
  id = id;
  source_id = "source";
  captured_at = "";
  fingerprint = id;
  database = record { name = "shop"; database_type = postgre_sql; version = "17" };
  schemas = record { name = "public"; tables = tables; views = []; enums = [] } ∷ [];
}

abbrev pub changes : String → String → SchemaChangeSet
changes before after = record {
  id = "c";
  before_snapshot_id = before;
  after_snapshot_id = after;
  created_at = "";
  operations = [];
  risk_summary = λ _. 0;
}

abbrev pub endpoint : String → String → RelationshipEndpoint
endpoint table column = record { schema = "public"; table = table; columns = column ∷ [] }

abbrev pub relationship : LogicalRelationshipStatus → LogicalRelationship
relationship status = record {
  id = "r";
  source_id = "source";
  name = "items of an order";
  source = endpoint "items" "order_id";
  target = endpoint "orders" "id";
  cardinality = one_to_many;
  status = status;
  origin = manual;
  note = none;
  evidence = [];
  created_at = "";
  updated_at = "";
}
