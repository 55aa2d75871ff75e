-- ===== src/Graph/Tests/Witnesses.antt =====
-- The theorems of Graph at inputs that meet their hypotheses.
use nodal_studio.Prelude.{
  ℕ, ◌||◌, IsSorted, nat_eq, is_set, true, false, List, [], ◌∷◌, ◌≡◌, ◌↔◌, refl, some, any,
  contains, ◌==◌, string_eq, inl, Memᴰ, inr,
}
use nodal_studio.Model.{active, table_key_eq, DatabaseSnapshot}
use nodal_studio.Graph.Comparison.Tables.{comparison_tables}
use nodal_studio.Graph.Related.{related_table_ids}
use nodal_studio.Graph.Related.Linked.{linked}
use nodal_studio.Graph.Walks.{Within}
use nodal_studio.Graph.Related.Levels.{related_table_ids_iff}
use nodal_studio.Graph.Comparison.{ComparisonTable, tables_of}
use nodal_studio.Graph.Comparison.Columns.{has_column, merged_columns, by_ordinal}
use nodal_studio.Graph.Comparison.Laws.{
  baseline_list, comparison_tables-covers, comparison_tables-deleted_iff,
}
use nodal_studio.Graph.Comparison.Merged.{Origin, merged_columns_lem, relations_of-Origin}
use nodal_studio.Graph.Comparison.Relations.{
  ComparisonRelation, deleted, before, relations_of, previous_relation,
}
use nodal_studio.Graph.Comparison.Tables.{comparisons}
use nodal_studio.Graph.Comparison.Unchanged.{
  IsUnchanged, has_distinct_keys, comparison_tables-IsUnchanged,
}
use nodal_studio.Graph.Inference.{index_candidates, matching_places, resolve_inferred_target}
use nodal_studio.Graph.Inference.Index.{places, is_named, matching_places-index_candidates}
use nodal_studio.Graph.Inference.Sound.{IsInferred, infer_relationships-IsInferred}
use nodal_studio.Graph.Inference.Target.{at_least, scored, resolve_inferred_target_iff}
use nodal_studio.Graph.Tests.Runs.{guess, inferred}
use nodal_studio.Samples.{
  sample_tables, relationship, snapshot, users, orders, changes, listed, key_to,
}

related_table_ids_iff_example :
    (contains "public.items"
        (related_table_ids sample_tables ("public.users" ∷ []) 2 (relationship active ∷ []))
      ≡ true)
    ↔ Within
        (linked sample_tables (relationship active ∷ []))
        ("public.users" ∷ [])
        2
        "public.items"
related_table_ids_iff_example =
    related_table_ids_iff sample_tables ("public.users" ∷ []) 2 (relationship active ∷ [])
      "public.items"

matching_places-index_candidates_example :
    contains 1 (matching_places (index_candidates sample_tables) "order")
    ≡ contains 1 (places (is_named "order") 0 sample_tables)
matching_places-index_candidates_example = matching_places-index_candidates sample_tables "order" 1

resolve_inferred_target_iff_example :
    (resolve_inferred_target sample_tables "public" "items" "order" ≡ some (listed orders)) ↔ (
      (n : ℕ) × (at_least n (scored sample_tables "public" "items" "order")
        ≡ (listed orders, n) ∷ []))
resolve_inferred_target_iff_example =
    resolve_inferred_target_iff sample_tables "public" "items" "order" (listed orders)

infer_relationships-IsInferred_example : IsInferred sample_tables guess
infer_relationships-IsInferred_example =
    infer_relationships-IsInferred sample_tables guess (rw inferred (Memᴰ.head refl))

merged_columns_lem_example :
    (has_column "user_id" (merged_columns users.columns orders.columns)
      ≡ (has_column "user_id" users.columns || has_column "user_id" orders.columns))
    × IsSorted by_ordinal (merged_columns users.columns orders.columns)
merged_columns_lem_example = merged_columns_lem "user_id" users.columns orders.columns

abbrev dropped_key : ComparisonRelation
dropped_key = record {
  foreign_key = key_to "orders_user" "user_id" "users";
  change_status = some deleted;
  snapshot_side = some before;
  replaced = false;
}

relations_of-Origin_example : Origin [] orders.foreign_keys dropped_key
unfolding relations_of previous_relation
relations_of-Origin_example =
    relations_of-Origin true true [] orders.foreign_keys [] dropped_key (Memᴰ.head refl)

abbrev shown : DatabaseSnapshot
shown = snapshot "b" (users ∷ [])

abbrev base : DatabaseSnapshot
base = snapshot "a" (users ∷ orders ∷ [])

orders_in_base : Memᴰ orders (baseline_list shown (some base) (some (changes "a" "b")))
unfolding comparisons
orders_in_base = Memᴰ.tail (Memᴰ.head refl)

comparison_tables-covers_example :
    (entry : ComparisonTable) × Memᴰ entry
      (comparison_tables shown (some base) (some (changes "a" "b")))
    × (entry.table.key ≡ orders.key)
comparison_tables-covers_example =
    comparison_tables-covers shown (some base) (some (changes "a" "b")) orders (inr orders_in_base)

orders_entry :
    (entry : ComparisonTable) × Memᴰ entry
      (comparison_tables shown (some base) (some (changes "a" "b")))
    × (entry.table.key ≡ orders.key)
orders_entry =
    comparison_tables-covers shown (some base) (some (changes "a" "b")) orders (inr orders_in_base)

comparison_tables-deleted_iff_example :
    (orders_entry.0.change_status ≡ some deleted)
    ↔ (any (λ t. t.key == orders_entry.0.table.key) (tables_of shown) ≡ false)
comparison_tables-deleted_iff_example =
    comparison_tables-deleted_iff shown (some base) (some (changes "a" "b")) orders_entry.0
      orders_entry.1

abbrev same_twice : List ComparisonTable
same_twice = comparison_tables base (some base) (some (changes "a" "a"))

orders_unchanged :
    (entry : ComparisonTable) × Memᴰ entry same_twice × (entry.table.key ≡ orders.key)
orders_unchanged =
    comparison_tables-covers base (some base) (some (changes "a" "a")) orders
      (inl (Memᴰ.tail (Memᴰ.head refl)))

distinct_keys : has_distinct_keys (tables_of base) ≡ true
unfolding is_set
distinct_keys = refl

comparison_tables-IsUnchanged_example : IsUnchanged orders_unchanged.0
comparison_tables-IsUnchanged_example =
    comparison_tables-IsUnchanged base (changes "a" "a") orders_unchanged.0 refl refl refl
      distinct_keys orders_unchanged.1
