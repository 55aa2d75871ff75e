-- ===== src/Discovery/Tests.antt =====
-- The theorems of Discovery at inputs that meet their hypotheses.
use nodal_studio.Prelude.{
  ◌+◌, ◌≤◌, String, Bool, true, false, List, [], ◌∷◌, map, contains, string_eq, ◌≡◌, ◌↔◌, ◌⊎◌,
  arith, all, filter, length, add, join,
}
use nodal_studio.Model.{DatabaseSnapshot, ObjectKey, active, object_key, table_key_eq}
use nodal_studio.Graph.Comparison.{map_of, tables_of}
use nodal_studio.Graph.Walks.{Within}
use nodal_studio.Samples.{snapshot, users, orders, items, relationship}
use nodal_studio.Discovery.{KnownRelationship, physical, object_id}
use nodal_studio.Discovery.Known.{known_relationships, is_active}
use nodal_studio.Discovery.Known.Laws.{is_known, total, keys_in, known_relationships_lem}
use nodal_studio.Discovery.Neighborhood.{neighborhood, ordered_keys, included_keys, hop_keys}
use nodal_studio.Discovery.Neighborhood.Hops.{linked}
use nodal_studio.Discovery.Neighborhood.Laws.{
  has_table, has_table-neighborhood_iff, neighborhood-keeps_path,
}

abbrev shop : DatabaseSnapshot
shop = snapshot "now" (users ∷ orders ∷ items ∷ [])

abbrev users_key : ObjectKey
users_key = object_key users.key

abbrev orders_key : ObjectKey
orders_key = object_key orders.key

abbrev edge : KnownRelationship
edge = record {
  id = "physical|orders_user";
  kind = physical;
  source = orders_key;
  target = users_key;
  source_columns = "user_id" ∷ [];
  target_columns = "id" ∷ [];
}

has_table-neighborhood_iff_example :
    (has_table (neighborhood shop users_key (edge ∷ []) 1 []).snapshot orders.key ≡ true) ↔ (
      (has_table shop orders.key ≡ true)
      × ((contains orders.key (map object_id []) ≡ true)
          ⊎ Within (linked (edge ∷ [])) (object_id users_key ∷ []) 1 orders.key))
unfolding ordered_keys hop_keys add contains table_key_eq
has_table-neighborhood_iff_example =
    has_table-neighborhood_iff shop users_key (edge ∷ []) 1 [] orders.key (omega arith)

neighborhood-keeps_path_example :
    (length (included_keys users_key (edge ∷ []) 0 (users_key ∷ orders_key ∷ [])) ≤ 100)
    × (has_table
          (neighborhood shop users_key (edge ∷ []) 0 (users_key ∷ orders_key ∷ [])).snapshot
          (object_id users_key)
        ≡ has_table shop (object_id users_key))
    × ((100 ≤ length (users_key ∷ orders_key ∷ []))
        ⊎ ((contains orders.key (map object_id (users_key ∷ orders_key ∷ [])) ≡ false)
            ⊎ (has_table
                  (neighborhood shop users_key (edge ∷ []) 0 (users_key ∷ orders_key ∷ [])).snapshot
                  orders.key
                ≡ has_table shop orders.key)))
neighborhood-keeps_path_example =
    neighborhood-keeps_path shop users_key (edge ∷ []) 0 (users_key ∷ orders_key ∷ []) orders.key

abbrev joined : List String → String
joined = join ","

abbrev any_order : String → String → Bool
any_order a b = true

known_relationships_lem_example :
    (all
        (is_known joined (λ s. s) any_order (map_of (tables_of shop)))
        (known_relationships joined
          (λ s. s)
          any_order
          shop
          (relationship active ∷ [])).relationships
      ≡ true)
    × (total joined
          (λ s. s)
          any_order
          (known_relationships joined (λ s. s) any_order shop (relationship active ∷ []))
        ≡ length (filter (is_active joined (λ s. s) any_order shop) (relationship active ∷ []))
          + keys_in joined (λ s. s) any_order (map_of (tables_of shop)))
known_relationships_lem_example =
    known_relationships_lem joined (λ s. s) any_order shop (relationship active ∷ [])
