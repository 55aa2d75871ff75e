-- ===== src/Model/Shares.antt =====
-- platform/types.ts: annotations, saved views and layouts, and the bundle in which a project is shared.
-- `Num` is the type of coordinates and sizes. A knowledge state, which nothing in the model reads, is left out.
use nodal_studio.Prelude.{ℕ, Bool, String, List, Option}
use nodal_studio.Model.Catalog.{ObjectKey, DatabaseSnapshot}
use nodal_studio.Model.Changes.{SchemaChangeSet}
use nodal_studio.Model.Semantics.{
  DomainGroup, LogicalRelationship, IgnoredRelationshipInference, CanvasNodeLayout,
}

pub record ObjectAnnotation : Type 0 where
  pub source_id : String
  pub object_key : ObjectKey
  pub description : Option String
  pub tags : List String
  pub owner : Option String
  pub is_core : Bool
  pub updated_at : String

pub record SavedView : Type 0 where
  pub id : String
  pub source_id : String
  pub name : String
  pub root_table_keys : List ObjectKey
  pub relationship_depth : ℕ
  pub updated_at : String

pub record Viewport (Num : Type 0) : Type 0 where
  pub x : Num
  pub y : Num
  pub zoom : Num

pub record CanvasLayout (Num : Type 0) : Type 0 where
  pub source_id : String
  pub view_id : Option String
  pub positions : List (String × CanvasNodeLayout Num)
  pub viewport : Option (Viewport Num)
  pub updated_at : String

pub record SemanticBundle (Num : Type 0) : Type 0 where
  pub annotations : List ObjectAnnotation
  pub orphaned_annotations : List ObjectAnnotation
  pub view_layouts : Option (List (CanvasLayout Num))
  pub domain_groups : List DomainGroup
  pub saved_views : List SavedView
  pub layout : Option (CanvasLayout Num)
  pub logical_relationships : List LogicalRelationship
  pub ignored_relationship_inferences : List IgnoredRelationshipInference

pub record CloudViewBundle (Num : Type 0) : Type 0 where
  pub project_id : String
  pub source_id : String
  pub source_label : String
  pub fingerprint : String
  pub snapshot : Option DatabaseSnapshot
  pub change_set : Option SchemaChangeSet
  pub annotations : List ObjectAnnotation
  pub domain_groups : List DomainGroup
  pub saved_views : List SavedView
  pub layout : Option (CanvasLayout Num)
  pub logical_relationships : Option (List LogicalRelationship)
  pub base_version : ℕ
