-- ===== src/Discovery.antt =====
-- graph/business-discovery.ts: the relationships that are known of a snapshot, and the part of a
-- snapshot around a table. `objectId` is the pair of schema and name.
pub mod Known
pub mod Neighborhood
mod Tests
use nodal_studio.Prelude.{String, List, ◌&◌}
use nodal_studio.Model.{ObjectKey, TableKey}

-- platform/discovery-types.ts
pub data RelationshipKind : Type 0 where
  physical logical : RelationshipKind

pub record KnownRelationship : Type 0 where
  pub id : String
  pub kind : RelationshipKind
  pub source : ObjectKey
  pub target : ObjectKey
  pub source_columns : List String
  pub target_columns : List String

abbrev pub object_id : ObjectKey → TableKey
object_id key = record { schema = key.schema; name = key.name }

abbrev pub object_label : ObjectKey → String
object_label key = key.schema & "." & key.name

abbrev pub table_key : String → String → ObjectKey
table_key schema name = record { kind = "table"; schema = schema; name = name }
