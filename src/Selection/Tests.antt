-- ===== src/Selection/Tests.antt =====
-- The theorems of Selection at inputs that meet their hypotheses.
use nodal_studio.Prelude.{
  ◌+◌, Bool, true, false, ◌&&◌, ◌||◌, [], ◌∷◌, map, none, some, contains, of_list, length,
  is_returned, string_eq, ◌==◌, ◌≡◌, refl, any, all, is_set, add,
}
use nodal_studio.Model.{
  DatabaseSnapshot, TableDefinition, ObjectKey, object_key, object_key_eq, DomainGroup,
}
use nodal_studio.Graph.Comparison.{tables_of}
use nodal_studio.Graph.Comparison.Relations.{deleted}
use nodal_studio.Samples.{snapshot, users, orders, items}
use nodal_studio.Selection.{
  SelectableNode, current_keys, selected_current_table_keys, Addition, input_of,
  domain_membership_addition,
}
use nodal_studio.Selection.Laws.{
  selects, selected_current_table_keys_lem, domain_membership_addition-grows,
  is_returned-domain_membership_addition,
}

abbrev shop : DatabaseSnapshot
shop = snapshot "now" (users ∷ orders ∷ [])

abbrev node : Bool → TableDefinition → SelectableNode
node selected table = record {
  id = table.key.name;
  selected = selected;
  change_status = none;
  table = table;
}

abbrev ghost : SelectableNode
ghost = record (node true items) { change_status = some deleted }

abbrev orders_key : ObjectKey
orders_key = object_key orders.key

abbrev users_key : ObjectKey
users_key = object_key users.key

selected_current_table_keys_lem_example :
    (contains orders_key
        (selected_current_table_keys (node true orders ∷ ghost ∷ node false users ∷ []) shop)
      ≡ (any (selects orders_key) (node true orders ∷ ghost ∷ node false users ∷ [])
          && contains orders_key (map (λ table. object_key table.key) (tables_of shop))))
    × (is_set (selected_current_table_keys (node true orders ∷ ghost ∷ node false users ∷ []) shop)
        ≡ true)
selected_current_table_keys_lem_example =
    selected_current_table_keys_lem (node true orders ∷ ghost ∷ node false users ∷ []) shop
      orders_key

abbrev sales : DomainGroup
sales = record {
  id = "sales";
  source_id = shop.source_id;
  name = "Sales";
  description = none;
  color = "blue";
  table_keys = orders_key ∷ [];
  updated_at = "";
}

abbrev grown : Addition
grown = record {
  input = input_of sales (orders_key ∷ users_key ∷ []);
  added_count = 1;
  already_member_count = 1;
}

domain_membership_addition-grows_example :
    ((key : ObjectKey)
      → contains key grown.input.table_keys
        ≡ (contains key sales.table_keys || contains key (users_key ∷ orders_key ∷ users_key ∷ [])))
    × (grown.added_count + grown.already_member_count
        ≡ length (of_list (users_key ∷ orders_key ∷ users_key ∷ [])))
    × (length grown.input.table_keys ≡ length (of_list sales.table_keys) + grown.added_count)
unfolding domain_membership_addition contains add object_key_eq
domain_membership_addition-grows_example =
    domain_membership_addition-grows shop sales (users_key ∷ orders_key ∷ users_key ∷ []) grown refl

is_returned-domain_membership_addition_example :
    is_returned (domain_membership_addition shop sales (users_key ∷ [])) ≡ (
      sales.source_id == shop.source_id
      && all (λ key. key.kind == "table" && contains key (current_keys shop)) (users_key ∷ []))
is_returned-domain_membership_addition_example =
    is_returned-domain_membership_addition shop sales (users_key ∷ [])
