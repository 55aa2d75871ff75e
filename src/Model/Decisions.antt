-- ===== src/Model/Decisions.antt =====
-- Structural equality of keys and definitions. The code compares the JSON texts of two values of
-- one type, whose properties stand in one order, and compares string literals by `===`.
use native.Mathlib.Decide.{ℕ_discrete}
use nodal_studio.Prelude.{String, List, Eq, Eq-discrete, eq_of_discrete, string_eq, Bool-cases}
use nodal_studio.Model.Catalog.{
  ObjectKey, TableKey, ColumnDefinition, ForeignKeyDefinition, TableDefinition,
}
use nodal_studio.Model.Semantics.{LogicalRelationshipStatus, RelationshipEndpoint}
use nodal_studio.Model.Changes.{OperationType}

String_discrete : Discrete String
unfolding Eq-discrete Bool-cases
String_discrete = Eq-discrete

ObjectKey-discrete : Discrete ObjectKey
unfolding String_discrete
ObjectKey-discrete = hlevel String_discrete

TableKey-discrete : Discrete TableKey
unfolding String_discrete
TableKey-discrete = hlevel String_discrete

ForeignKeyDefinition-discrete : Discrete ForeignKeyDefinition
unfolding String_discrete
ForeignKeyDefinition-discrete = hlevel String_discrete

ColumnDefinition-discrete : Discrete ColumnDefinition
unfolding String_discrete ℕ_discrete
ColumnDefinition-discrete = hlevel (String_discrete, ℕ_discrete)

TableDefinition-discrete : Discrete TableDefinition
unfolding String_discrete ℕ_discrete
TableDefinition-discrete = hlevel (String_discrete, ℕ_discrete)

OperationType-discrete : Discrete OperationType
OperationType-discrete = hlevel

LogicalRelationshipStatus-discrete : Discrete LogicalRelationshipStatus
LogicalRelationshipStatus-discrete = hlevel

RelationshipEndpoint-discrete : Discrete RelationshipEndpoint
unfolding String_discrete
RelationshipEndpoint-discrete = hlevel String_discrete

instance unfoldable pub object_key_eq : Eq ObjectKey
unfolding ObjectKey-discrete
object_key_eq = eq_of_discrete ObjectKey-discrete

instance unfoldable pub table_key_eq : Eq TableKey
unfolding TableKey-discrete
table_key_eq = eq_of_discrete TableKey-discrete

instance unfoldable pub foreign_key_eq : Eq ForeignKeyDefinition
unfolding ForeignKeyDefinition-discrete
foreign_key_eq = eq_of_discrete ForeignKeyDefinition-discrete

instance unfoldable pub column_eq : Eq ColumnDefinition
unfolding ColumnDefinition-discrete
column_eq = eq_of_discrete ColumnDefinition-discrete

instance unfoldable pub table_eq : Eq TableDefinition
unfolding TableDefinition-discrete
table_eq = eq_of_discrete TableDefinition-discrete

instance unfoldable pub operation_eq : Eq OperationType
unfolding OperationType-discrete
operation_eq = eq_of_discrete OperationType-discrete

instance unfoldable pub status_eq : Eq LogicalRelationshipStatus
unfolding LogicalRelationshipStatus-discrete
status_eq = eq_of_discrete LogicalRelationshipStatus-discrete

instance unfoldable pub endpoint_eq : Eq RelationshipEndpoint
unfolding RelationshipEndpoint-discrete
endpoint_eq = eq_of_discrete RelationshipEndpoint-discrete

strings-discrete : Discrete (List String)
unfolding String_discrete
strings-discrete = hlevel String_discrete

instance unfoldable pub strings_eq : Eq (List String)
unfolding strings-discrete
strings_eq = eq_of_discrete strings-discrete
