-- ===== src/Selection.antt =====
-- graph/table-selection.ts: the tables that are selected in a diagram, and their addition to a business
-- domain. `tableKeyIdentity` is injective, so a Map from identities to their keys is a set of keys.
pub mod Laws
mod Tests
use nodal_studio.Prelude.{
  ℕ, zero, suc, ◌-◌, String, Bool, true, false, not, ◌&&◌, List, [], ◌∷◌, map, Option, none, some,
  filter, contains, add, of_list, fold, length, if◌then◌else◌, Attempt, thrown, returned, string_eq,
  ◌==◌,
}
use nodal_studio.Model.{
  TableDefinition, DatabaseSnapshot, ObjectKey, object_key, object_key_eq, DomainGroup,
  SaveDomainGroupInput,
}
use nodal_studio.Graph.Comparison.{tables_of}
use nodal_studio.Graph.Comparison.Relations.{ChangeStatus, deleted}

-- The parts of a `TableNode` that the selection reads.
pub record SelectableNode : Type 0 where
  pub id : String
  pub selected : Bool
  pub change_status : Option ChangeStatus
  pub table : TableDefinition

abbrev pub selected_ids : List SelectableNode → List String
selected_ids nodes = of_list (map (λ node. node.id) (filter (λ node. node.selected) nodes))

unfoldable pub retain_table_selection :
    List SelectableNode → List SelectableNode → List SelectableNode
retain_table_selection next previous =
    map
      (λ (node : SelectableNode). record node {
        selected = contains node.id (selected_ids previous);
      })
      next

abbrev pub current_keys : DatabaseSnapshot → List ObjectKey
current_keys snapshot = of_list (map (λ table. object_key table.key) (tables_of snapshot))

abbrev pub is_deleted : Option ChangeStatus → Bool
is_deleted (some deleted) = true
is_deleted _ = false

-- The body of the loop over the nodes.
unfoldable pub add_selected : List ObjectKey → List ObjectKey → SelectableNode → List ObjectKey
add_selected current result node =
    if not node.selected
    then result
    else if is_deleted node.change_status
    then result
    else if contains (object_key node.table.key) current
    then add (object_key node.table.key) result
    else result

unfoldable pub selected_current_table_keys : List SelectableNode → DatabaseSnapshot → List ObjectKey
unfolding add_selected
selected_current_table_keys nodes snapshot = fold (add_selected (current_keys snapshot)) [] nodes

pub record Membership : Type 0 where
  pub members : List ObjectKey
  pub added_count : ℕ

pub record Addition : Type 0 where
  pub input : SaveDomainGroupInput
  pub added_count : ℕ
  pub already_member_count : ℕ

-- The loop over the selected keys.
unfoldable pub add_members : List ObjectKey → List ObjectKey → Membership → Attempt Membership
add_members current [] m = returned m
add_members current (key ∷ keys) m =
    let kept = add_members current keys m in
    let grown =
      add_members current keys
        (record { members = add key m.members; added_count = suc m.added_count }) in
    if not (key.kind == "table" && contains key current)
    then thrown
        "A selected table is no longer present in this snapshot. Select current tables and try again."
    else if contains key m.members
    then kept
    else grown

abbrev pub input_of : DomainGroup → List ObjectKey → SaveDomainGroupInput
input_of group keys = record {
  id = some group.id;
  source_id = group.source_id;
  name = group.name;
  description = group.description;
  color = group.color;
  table_keys = keys;
}

abbrev finish : DomainGroup → List ObjectKey → Attempt Membership → Attempt Addition
finish group selected (thrown message) = thrown message
finish group selected (returned m) = returned (record {
  input = input_of group m.members;
  added_count = m.added_count;
  already_member_count = length selected - m.added_count;
})

unfoldable pub domain_membership_addition :
    DatabaseSnapshot → DomainGroup → List ObjectKey → Attempt Addition
unfolding add_members
domain_membership_addition snapshot group selected =
    if not (group.source_id == snapshot.source_id)
    then thrown "This business domain belongs to another data source."
    else finish group (of_list selected) (
        add_members (current_keys snapshot) (of_list selected)
          (record { members = of_list group.table_keys; added_count = 0 }))
