-- ===== src/Model/Catalog.antt =====
-- platform/types.ts: a captured database. `T | null` is `Option T`, and an optional property that
-- may also be null is `Option (Option T)`. Text that no component reads is kept all the same.
use nodal_studio.Prelude.{ℕ, String, Bool, List, Option}

pub data DatabaseType : Type 0 where
  postgre_sql my_sql sqlite : DatabaseType

pub record DatabaseInfo : Type 0 where
  pub name : String
  pub database_type : DatabaseType
  pub version : String

pub record ObjectKey : Type 0 where
  pub kind : String
  pub schema : String
  pub name : String

-- A key whose kind is the literal "table" in the type.
pub record TableKey : Type 0 where
  pub schema : String
  pub name : String

abbrev pub object_key : TableKey → ObjectKey
object_key k = record { kind = "table"; schema = k.schema; name = k.name }

pub data Identity : Type 0 where
  always by_default : Identity

pub record ColumnDefinition : Type 0 where
  pub name : String
  pub ordinal_position : ℕ
  pub formatted_type : String
  pub type_schema : String
  pub type_name : String
  pub nullable : Bool
  pub default_value : Option String
  pub identity : Option Identity
  pub generated : Bool
  pub comment : Option String

pub record ForeignKeyDefinition : Type 0 where
  pub name : String
  pub columns : List String
  pub referenced_schema : String
  pub referenced_table : String
  pub referenced_columns : List String
  pub on_update : String
  pub on_delete : String
  pub match_type : String
  pub deferrable : Bool
  pub initially_deferred : Bool

pub record IndexDefinition : Type 0 where
  pub definition : Option (Option String)
  pub name : String
  pub method : String
  pub columns : List String
  pub unique : Bool
  pub primary : Bool
  pub predicate : Option String

pub data ConstraintType : Type 0 where
  check unique exclusion : ConstraintType

pub record ConstraintDefinition : Type 0 where
  pub name : String
  pub constraint_type : ConstraintType
  pub definition : String

pub record SqliteColumn : Type 0 where
  pub hidden : ℕ
  pub affinity : String
  pub generation_expression : Option String
  pub generation_mode : Option String

pub record SqliteTable : Type 0 where
  pub definition : String
  pub strict : Bool
  pub without_rowid : Bool
  pub virtual_table : Bool
  pub columns_unavailable : Option Bool
  pub columns : Option (List (String × SqliteColumn))
  pub diagnostics : List String

pub data TableKind : Type 0 where
  ordinary partitioned foreign : TableKind

pub record PrimaryKey : Type 0 where
  pub name : String
  pub columns : List String

pub record TableDefinition : Type 0 where
  pub sqlite : Option SqliteTable
  pub key : TableKey
  pub table_kind : TableKind
  pub columns : List ColumnDefinition
  pub primary_key : Option PrimaryKey
  pub foreign_keys : List ForeignKeyDefinition
  pub indexes : List IndexDefinition
  pub constraints : List ConstraintDefinition
  pub comment : Option String

pub record ViewDefinition : Type 0 where
  pub indexes : Option (List IndexDefinition)
  pub key : TableKey
  pub definition : String
  pub materialized : Bool
  pub comment : Option String

pub record EnumDefinition : Type 0 where
  pub key : TableKey
  pub values : List String

-- `programs` and `dependencies`, which no modelled component reads, are left out.
pub record SchemaDefinition : Type 0 where
  pub name : String
  pub tables : List TableDefinition
  pub views : List ViewDefinition
  pub enums : List EnumDefinition

pub record DatabaseSnapshot : Type 0 where
  pub id : String
  pub source_id : String
  pub captured_at : String
  pub fingerprint : String
  pub database : DatabaseInfo
  pub schemas : List SchemaDefinition
