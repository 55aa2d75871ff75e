-- ===== src/Graph/Comparison/Relations.antt =====
-- graph/schema-comparison.ts: the status of a change, and the foreign keys of a compared table.
use nodal_studio.Prelude.{
  String, Bool, true, false, ◌&&◌, List, [], ◌∷◌, ◌++◌, Option, none, some, find, filter, any,
  flat_map, map, if◌then◌else◌, ◌==◌, string_eq,
}
use nodal_studio.Model.{
  ForeignKeyDefinition, foreign_key_eq, SchemaOperation, add_foreign_key, drop_foreign_key,
  operation_eq,
}

pub data ChangeStatus : Type 0 where
  added modified deleted : ChangeStatus

pub data SnapshotSide : Type 0 where
  before after : SnapshotSide

pub record ComparisonRelation : Type 0 where
  pub foreign_key : ForeignKeyDefinition
  pub change_status : Option ChangeStatus
  pub snapshot_side : Option SnapshotSide
  pub replaced : Bool

-- `foreignKeys.find((candidate) => candidate.name === foreignKey.name)`
abbrev pub same_name :
    ForeignKeyDefinition → List ForeignKeyDefinition → Option ForeignKeyDefinition
same_name fk = find (λ candidate. candidate.name == fk.name)

unfoldable pub concerns_key : String → SchemaOperation → Bool
concerns_key name op = op.object.kind == "foreignKey" && op.object.name == name

-- The status of a current foreign key against the baseline's keys.
unfoldable pub baseline_status :
    List ForeignKeyDefinition → ForeignKeyDefinition → Option ChangeStatus
baseline_status previous fk = elim (same_name fk previous) [
  | none ↦ some added
  | some old ↦ if old == fk then none else some modified
]

-- Its status where only the operations are known.
unfoldable pub operation_status : List SchemaOperation → ForeignKeyDefinition → Option ChangeStatus
unfolding concerns_key
operation_status operations fk =
    let matching = filter (concerns_key fk.name) operations in
    if any (λ op. op.operation_type == add_foreign_key) matching
    then if any (λ op. op.operation_type == drop_foreign_key) matching
      then some modified
      else some added
    else none

unfoldable pub key_status :
    Bool
    → Bool
    → List ForeignKeyDefinition
    → List SchemaOperation
    → ForeignKeyDefinition
    → Option ChangeStatus
key_status comparing baseline previous operations fk =
    if comparing
    then if baseline then baseline_status previous fk else operation_status operations fk
    else none

abbrev side_of : Option ChangeStatus → Option SnapshotSide
side_of none = none
side_of (some status) = some after

unfoldable pub current_relation :
    Bool
    → Bool
    → List ForeignKeyDefinition
    → List SchemaOperation
    → ForeignKeyDefinition
    → ComparisonRelation
current_relation comparing baseline previous operations fk =
    let status = key_status comparing baseline previous operations fk in
    record {
      foreign_key = fk;
      change_status = status;
      snapshot_side = side_of status;
      replaced = false;
    }

abbrev removed : ForeignKeyDefinition → Bool → ComparisonRelation
removed fk replaced = record {
  foreign_key = fk;
  change_status = some deleted;
  snapshot_side = some before;
  replaced = replaced;
}

-- The body of the loop over the previous keys.
unfoldable pub previous_relation :
    List ForeignKeyDefinition → ForeignKeyDefinition → List ComparisonRelation
previous_relation current fk = elim (same_name fk current) [
  | none ↦ removed fk false ∷ []
  | some replacement ↦ if fk == replacement then [] else removed fk true ∷ []
]

-- The current keys with their statuses, then the previous keys that are gone or differ.
unfoldable pub relations_of :
    Bool
    → Bool
    → List ForeignKeyDefinition
    → List ForeignKeyDefinition
    → List SchemaOperation
    → List ComparisonRelation
unfolding current_relation
relations_of comparing baseline current previous operations =
    map (current_relation comparing baseline previous operations) current
    ++ flat_map (previous_relation current) previous
