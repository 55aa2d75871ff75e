-- ===== src/Model/Changes.antt =====
-- platform/types.ts: the operations that lead from one snapshot to another.
use nodal_studio.Prelude.{ℕ, String, List, Option}
use nodal_studio.Model.Catalog.{ObjectKey}

pub data OperationType : Type 0 where
  add_table drop_table add_column drop_column rename_column alter_column : OperationType
  add_primary_key drop_primary_key add_foreign_key drop_foreign_key : OperationType
  add_index drop_index add_constraint drop_constraint : OperationType
  add_view drop_view alter_view add_enum drop_enum alter_enum : OperationType
  add_program drop_program alter_program alter_dependencies : OperationType

pub data RiskLevel : Type 0 where
  informational low medium high : RiskLevel

pub record SchemaOperation : Type 0 where
  pub operation_type : OperationType
  pub object : ObjectKey
  pub risk : RiskLevel
  pub before : Option String
  pub after : Option String

pub record SchemaChangeSet : Type 0 where
  pub id : String
  pub before_snapshot_id : String
  pub after_snapshot_id : String
  pub created_at : String
  pub operations : List SchemaOperation
  pub risk_summary : RiskLevel → ℕ
