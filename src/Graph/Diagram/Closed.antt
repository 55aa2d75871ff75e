-- ===== src/Graph/Diagram/Closed.antt =====
-- graph/schema-graph.ts, `buildSchemaGraph`: the nodes are the included tables, and edges join nodes.
use mathlib.Core.List.Memᴰ
use nodal_studio.Prelude.{
  ℕ, suc, String, Bool, true, List, [], ◌∷◌, some, or_else, map, filter, length, contains,
  contains-of_list, contains-filter, of_list, leb, ◌==◌, string_eq, ◌&&◌, ◌≡◌, refl, sym, ap, ◌∙◌,
  arith, Bool-cases, Option-cases, inl, inr, Memᴰ, agree_refl,
}
use nodal_studio.Model.{LogicalRelationship}
use nodal_studio.Graph.Ids.{SchemaTable}
use nodal_studio.Graph.Related.{related_table_ids}
use nodal_studio.Graph.Comparison.{ComparisonTable}
use nodal_studio.Graph.Diagram.{SchemaGraphOptions, TableNode, is_not_off, is_given}
use nodal_studio.Graph.Diagram.Shown.{
  Host, id_of, listed, focused, rooted, included_ids, shown_tables, table_matches, restrict_to,
  normalized_query, is_empty_list,
}
use nodal_studio.Graph.Diagram.Nodes.{number_nodes, seed_canvas_geometry}
use nodal_studio.Graph.Diagram.Build.{seed_nodes}

contains-map-filter :
    {A : Type 0} (f : A → String) (p : A → Bool) (id : String) (xs : List A)
    → contains id (map f (filter p xs)) ≡ true
    → contains id (map f xs) ≡ true
unfolding contains
contains-map-filter f p id [] h = h
contains-map-filter f p id (x ∷ xs) h = elim (Bool-cases (p x)) [
  | inl e ↦ ground (arith, contains-map-filter f p id xs)
  | inr e ↦ ground (arith, contains-map-filter f p id xs)
]

-- A filter on a value keeps each listed value that it accepts.
contains-map_keep :
    {A : Type 0} (f : A → String) (q : String → Bool) (id : String) (xs : List A)
    → q id ≡ true
    → contains id (map f xs) ≡ true
    → contains id (map f (filter (λ x. q (f x)) xs)) ≡ true
unfolding contains
contains-map_keep f q id [] k h = h
contains-map_keep f q id (x ∷ xs) k h = elim (Bool-cases (f x == id)) [
  | inl e ↦
      let same : f x ≡ id = (string_eq.agree_iff (f x) id).0 e in
      let kept : q (f x) ≡ true = ap q same ∙ k in rw (kept, e) refl
  | inr e ↦ elim (Bool-cases (q (f x))) [
    | inl kept ↦ rw (kept, e) (contains-map_keep f q id xs k (rw e at h))
    | inr kept ↦ rw kept (contains-map_keep f q id xs k (rw e at h))
  ]
]

pub contains-map_mem :
    {A : Type 0} (f : A → String) (a : A) (xs : List A)
    → Memᴰ a xs
    → contains (f a) (map f xs) ≡ true
unfolding contains
contains-map_mem f a [] m = absurd (Memᴰ.not-nil m)
contains-map_mem f a (x ∷ xs) m = elim (Memᴰ.cases_cons m) [
  | inl same ↦ rw (sym same, agree_refl (f a)) refl
  | inr later ↦ rw (contains-map_mem f a xs later) (ground arith)
]

contains-restrict :
    (tables : List SchemaTable) (roots : List String) (depth : ℕ)
    (logical : List LogicalRelationship) (ids : List String) (id : String)
    → contains id (restrict_to tables roots depth logical ids) ≡ true
    → contains id ids ≡ true
contains-restrict tables roots depth logical ids id h =
    ground (
      arith,
      contains-filter (λ i. contains i (related_table_ids tables roots depth logical)) id ids,
    )

module _ (host : Host) (tables : List ComparisonTable) (options : SchemaGraphOptions)
    (logical : List LogicalRelationship) where
  contains-focused :
      (ids : List String) (id : String)
      → contains id (focused host tables options logical ids) ≡ true
      → contains id ids ≡ true
  unfolding focused
  contains-focused ids id h = elim (Option-cases options.focus_node_id) [
    | inl e ↦ rw e at h
    | inr (focus, e) ↦
        elim (Bool-cases (is_given (some focus) && contains focus (of_list (map id_of tables)))) [
          | inl k ↦
              contains-restrict (map listed tables) (focus ∷ []) 1 logical ids id (rw (e, k) at h)
          | inr k ↦ rw (e, k) at h
        ]
  ]

  contains-rooted :
      (ids : List String) (id : String)
      → contains id (rooted host tables options logical ids) ≡ true
      → contains id ids ≡ true
  unfolding rooted
  contains-rooted ids id h = elim (Option-cases options.root_node_ids) [
    | inl e ↦ rw e at h
    | inr (roots, e) ↦ elim (Bool-cases (is_empty_list roots)) [
      | inl k ↦ rw (e, k) at h
      | inr k ↦
          contains-restrict (map listed tables) roots (or_else options.relationship_depth 1) logical
            ids id (rw (e, k) at h)
    ]
  ]

  -- Only tables are included.
  contains-included_ids :
      (id : String)
      → contains id (included_ids host tables options logical) ≡ true
      → contains id (map id_of tables) ≡ true
  unfolding included_ids
  contains-included_ids id h =
      let matches = λ (t : ComparisonTable).
        table_matches host t.schema t.table (normalized_query host options) in
      let inner =
        contains-focused (of_list (map id_of (filter matches tables))) id
          (contains-rooted _ id h) in
      contains-map-filter id_of matches id tables
        (sym (contains-of_list id (map id_of (filter matches tables))) ∙ inner)

  pub contains-shown_tables :
      (id : String)
      → contains id (included_ids host tables options logical) ≡ true
      → contains id (map id_of (shown_tables (included_ids host tables options logical) tables))
        ≡ true
  contains-shown_tables id h =
      contains-map_keep id_of (λ i. contains i (included_ids host tables options logical)) id tables
        h (contains-included_ids id h)

-- The nodes stand for the tables that they are made of.
pub ids-number_nodes :
    (node : ℕ → ComparisonTable → TableNode) (index : ℕ) (tables : List ComparisonTable)
    → ((i : ℕ) (t : ComparisonTable) → (node i t).id ≡ id_of t)
    → map (λ n. n.id) (number_nodes node index tables) ≡ map id_of tables
ids-number_nodes node index [] h = refl
ids-number_nodes node index (t ∷ tables) h =
    rw (h index t, ids-number_nodes node (suc index) tables h) refl

ids-map_seed :
    (field_level show_comments : Bool) (nodes : List TableNode)
    → map (λ n. n.id) (map (seed_canvas_geometry field_level show_comments) nodes)
      ≡ map (λ n. n.id) nodes
unfolding seed_canvas_geometry
ids-map_seed field_level show_comments [] = refl
ids-map_seed field_level show_comments (node ∷ nodes) =
    ap (λ ids. node.id ∷ ids) (ids-map_seed field_level show_comments nodes)

pub ids-seed_nodes :
    (options : SchemaGraphOptions) (nodes : List TableNode)
    → map (λ n. n.id) (seed_nodes options nodes) ≡ map (λ n. n.id) nodes
unfolding seed_nodes
ids-seed_nodes options nodes = elim (Bool-cases (leb 100 (length nodes))) [
  | inl e ↦ rw e (
      ids-map_seed (is_not_off options.field_level_edges) (is_not_off options.show_table_comments)
        nodes)
  | inr e ↦ rw e refl
]
