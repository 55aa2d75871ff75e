-- ===== src/Graph/Diagram/Tests.antt =====
-- The theorems of Graph.Diagram at inputs that meet their hypotheses.
use nodal_studio.Prelude.{
  is_set, ℕ, zero, suc, true, List, [], ◌∷◌, none, some, length, ◌≡◌, ◌≢◌, refl, Memᴰ, ltb,
  contains, ◌-◌, ◌+◌, add, arith, string_eq,
}
use nodal_studio.Samples.{snapshot, users, orders, items}
use nodal_studio.Graph.Inference.{inference}
use nodal_studio.Graph.Comparison.Tables.{comparisons}
use nodal_studio.Graph.Diagram.{SchemaGraphOptions, SchemaGraph, FieldEdge}
use nodal_studio.Graph.Diagram.Shown.{Host}
use nodal_studio.Graph.Diagram.Edges.{edge_key}
use nodal_studio.Graph.Diagram.Build.{build_schema_graph}
use nodal_studio.Graph.Diagram.Joined.{build_schema_graph-joined, node_ids}
use nodal_studio.Graph.Diagram.Declared.{build_schema_graph-no_repetition}
use nodal_studio.Graph.Diagram.Orient.{Numbers, Place, orient_field_edges}
use nodal_studio.Graph.Diagram.Orient.Laws.{orient_field_edges_lem, handle_name}

abbrev host : Host
host = record { trim = λ s. s; to_locale_lower_case = λ s. s }

abbrev options : SchemaGraphOptions
options = record {
  query = none;
  focus_node_id = none;
  selected_node_id = none;
  root_node_ids = none;
  relationship_depth = none;
  change_set = none;
  before_snapshot = none;
  annotations = none;
  domain_groups = none;
  include_inferred_relationships = some true;
  include_physical_relationships = none;
  include_logical_relationships = none;
  include_invalid_logical_relationships = none;
  show_relationship_labels = none;
  edge_style = none;
  field_level_edges = none;
  show_cardinality = none;
  show_referential_actions = none;
  relationship_highlight_depth = none;
  high_contrast_relations = none;
  color_blind_palette = none;
  max_initial_columns = none;
  indexes = none;
  show_table_comments = none;
  logical_relationships = none;
  ignored_relationship_keys = none;
  relationships_editable = none;
}

abbrev shop : SchemaGraph
shop = build_schema_graph host (snapshot "s1" (users ∷ orders ∷ items ∷ [])) options

abbrev pick :
    (n : ℕ) (edges : List FieldEdge) → ltb n (length edges) ≡ true → (e : FieldEdge) × Memᴰ e edges
pick n [] h = absurd (ground arith)
pick zero (e ∷ edges) h = (e, Memᴰ.head refl)
pick (suc n) (e ∷ edges) h = let (f, m) = pick n edges (ground arith) in (f, Memᴰ.tail m)

-- A diagram of one foreign key and one inferred relationship.
counts :
    length shop.edges
      ∷ length shop.nodes
      ∷ shop.physical_relationship_count
      ∷ shop.inferred_relationship_count
      ∷ []
    ≡ 2 ∷ 3 ∷ 1 ∷ 1 ∷ []
unfolding build_schema_graph inference comparisons add
counts = refl

has_two : (n : ℕ) → ltb n 2 ≡ true → ltb n (length shop.edges) ≡ true
unfolding build_schema_graph inference comparisons add
has_two n h = h

abbrev declared_edge : (e : FieldEdge) × Memᴰ e shop.edges
declared_edge = pick 0 shop.edges (has_two 0 refl)

abbrev inferred_edge : (e : FieldEdge) × Memᴰ e shop.edges
inferred_edge = pick 1 shop.edges (has_two 1 refl)

build_schema_graph-joined_example :
    (contains declared_edge.0.source (node_ids shop) ≡ true)
    × (contains declared_edge.0.target (node_ids shop) ≡ true)
build_schema_graph-joined_example =
    build_schema_graph-joined host (snapshot "s1" (users ∷ orders ∷ items ∷ [])) options
      declared_edge.0 declared_edge.1

build_schema_graph-no_repetition_example : edge_key inferred_edge.0 ≢ edge_key declared_edge.0
unfolding build_schema_graph inference comparisons add
build_schema_graph-no_repetition_example =
    build_schema_graph-no_repetition host (snapshot "s1" (users ∷ orders ∷ items ∷ [])) options
      inferred_edge.0 declared_edge.0 inferred_edge.1 declared_edge.1 refl refl

abbrev integers : Numbers ℕ
integers = record {
  number = λ n. n;
  subtract = λ a b. a - b + (b - a);
  absolute = λ a. a;
  less = λ a b. ltb a b;
}

abbrev users_place : Place ℕ
users_place = record { id = "public.users"; x = 640; y = 0 }

abbrev orders_place : Place ℕ
orders_place = record { id = "public.orders"; x = 0; y = 0 }

abbrev places : List (Place ℕ)
places = users_place ∷ orders_place ∷ []

orient_field_edges_lem_example :
    ((oriented : FieldEdge) × Memᴰ oriented (orient_field_edges integers shop.edges places)
      × (oriented.id ≡ declared_edge.0.id)
      × (edge_key oriented ≡ edge_key declared_edge.0)
      × (oriented.source_handle
          ≡ handle_name integers declared_edge.0.details.field_level "source"
              declared_edge.0.details.source_column "right")
      × (oriented.target_handle
          ≡ handle_name integers declared_edge.0.details.field_level "target"
              declared_edge.0.details.target_column "left"))
    × (orient_field_edges integers (orient_field_edges integers shop.edges places) places
        ≡ orient_field_edges integers shop.edges places)
unfolding build_schema_graph inference comparisons add is_set
orient_field_edges_lem_example =
    orient_field_edges_lem integers shop.edges places declared_edge.0 orders_place users_place refl
      declared_edge.1 (Memᴰ.tail (Memᴰ.head refl)) (Memᴰ.head refl) refl refl
