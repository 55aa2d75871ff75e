-- ===== src/Graph/Tests/Runs.antt =====
-- Runs of the definitions on the sample.
use nodal_studio.Prelude.{
  [], ◌∷◌, ◌≡◌, refl, map, some, none, contains, lookup, insert, add, string_eq,
}
use nodal_studio.Model.{active, table_key_eq, foreign_key_eq, column_eq, table_eq}
use nodal_studio.Graph.Ids.{table_node_id}
use nodal_studio.Graph.Related.{related_table_ids}
use nodal_studio.Graph.Inference.{
  InferredRelationship, inference, infer_relationships, resolve_inferred_target,
}
use nodal_studio.Graph.Comparison.Relations.{deleted}
use nodal_studio.Graph.Comparison.Tables.{comparison_tables, comparisons}
use nodal_studio.Samples.{sample_tables, relationship, listed, users, orders, snapshot, changes}

one_hop :
    related_table_ids sample_tables ("public.users" ∷ []) 1 (relationship active ∷ [])
    ≡ "public.users" ∷ "public.orders" ∷ []
unfolding related_table_ids contains add lookup insert table_node_id
one_hop = refl

two_hops :
    related_table_ids sample_tables ("public.users" ∷ []) 2 (relationship active ∷ [])
    ≡ "public.users" ∷ "public.orders" ∷ "public.items" ∷ []
unfolding related_table_ids contains add lookup insert table_node_id
two_hops = refl

abbrev pub guess : InferredRelationship
guess = record {
  source_id = "public.items";
  target_id = "public.orders";
  column = "order_id";
  referenced_column = "id";
  relationship_key = "public.items[order_id]->public.orders[id]";
  confidence = 68;
  evidence =
      "Column name order_id matches orders.id" ∷ "Source and target column types differ"
      ∷ "Target column is a primary key" ∷ [];
}

-- The other column, `user_id`, is declared by a foreign key.
pub inferred : infer_relationships sample_tables ≡ guess ∷ []
unfolding inference add
inferred = refl

-- Two candidates with one score resolve to nothing.
tie : resolve_inferred_target (listed users ∷ listed users ∷ []) "public" "orders" "user" ≡ none
unfolding inference
tie = refl

removed_table :
    map
      (λ e. e.change_status)
      (comparison_tables
        (snapshot "b" (users ∷ []))
        (some (snapshot "a" (users ∷ orders ∷ [])))
        (some (changes "a" "b")))
    ≡ none ∷ some deleted ∷ []
unfolding comparisons
removed_table = refl
