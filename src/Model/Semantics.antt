-- ===== src/Model/Semantics.antt =====
-- platform/types.ts: business domains, logical relationships and the review of inferred ones.
use nodal_studio.Prelude.{Bool, String, List, Option}
use nodal_studio.Model.Catalog.{ObjectKey}

pub record DomainGroup : Type 0 where
  pub id : String
  pub source_id : String
  pub name : String
  pub description : Option String
  pub color : String
  pub table_keys : List ObjectKey
  pub updated_at : String

pub record SaveDomainGroupInput : Type 0 where
  pub id : Option String
  pub source_id : String
  pub name : String
  pub description : Option String
  pub color : String
  pub table_keys : List ObjectKey

pub record RelationshipEndpoint : Type 0 where
  pub schema : String
  pub table : String
  pub columns : List String

pub data RelationshipCardinality : Type 0 where
  one_to_one one_to_many many_to_one many_to_many unspecified : RelationshipCardinality

pub data LogicalRelationshipStatus : Type 0 where
  active disabled orphaned conflicted superseded_by_physical : LogicalRelationshipStatus

pub data LogicalRelationshipOrigin : Type 0 where
  manual confirmed_inference imported : LogicalRelationshipOrigin

pub record LogicalRelationship : Type 0 where
  pub id : String
  pub source_id : String
  pub name : String
  pub source : RelationshipEndpoint
  pub target : RelationshipEndpoint
  pub cardinality : RelationshipCardinality
  pub status : LogicalRelationshipStatus
  pub origin : LogicalRelationshipOrigin
  pub note : Option String
  pub evidence : List String
  pub created_at : String
  pub updated_at : String

pub record IgnoredRelationshipInference : Type 0 where
  pub source_id : String
  pub relationship_key : String
  pub ignored_at : String

-- `Num` is the type of coordinates and sizes.
pub record CanvasNodeLayout (Num : Type 0) : Type 0 where
  pub pinned : Option Bool
  pub x : Num
  pub y : Num
  pub width : Option Num
  pub height : Option Num
