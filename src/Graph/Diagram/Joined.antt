-- ===== src/Graph/Diagram/Joined.antt =====
-- graph/schema-graph.ts, `buildSchemaGraph`: edges join nodes of the diagram.
use mathlib.Core.List.Memᴰ
use nodal_studio.Prelude.{
  String, Bool, true, List, [], ◌++◌, or_else, map, contains, string_eq, ◌&&◌, ◌≡◌, refl, ap, ◌∙◌,
  arith, Bool-cases, inl, inr, Memᴰ, mem-flat_map, mem-map, mem-filter,
}
use nodal_studio.Model.{DatabaseSnapshot, LogicalRelationship}
use nodal_studio.Graph.Ids.{SchemaTable}
use nodal_studio.Graph.Related.{target_id}
use nodal_studio.Graph.Inference.{infer_relationships}
use nodal_studio.Graph.Comparison.{ComparisonTable}
use nodal_studio.Graph.Comparison.Tables.{comparison_tables}
use nodal_studio.Graph.Diagram.{SchemaGraphOptions, SchemaGraph, FieldEdge, is_on, is_not_off}
use nodal_studio.Graph.Diagram.Shown.{
  Host, id_of, after_tables, shown_logical, included_ids, shown_tables, shown_inferred,
}
use nodal_studio.Graph.Diagram.Nodes.{nodes_of, node_of}
use nodal_studio.Graph.Diagram.Edges.{Drawing, physical_edge, physical_edges, physical_keys}
use nodal_studio.Graph.Diagram.Added.{
  logical_edge, logical_edges, logical_keys, available_inferred, inferred_edge,
}
use nodal_studio.Graph.Diagram.Build.{drawn, build_schema_graph, highlighted_ids}
use nodal_studio.Graph.Diagram.Closed.{contains-shown_tables, ids-number_nodes, ids-seed_nodes}

pub both : {a b : Bool} → (a && b) ≡ true → (a ≡ true) × (b ≡ true)
both {a} {b} h = (ground arith, ground arith)

module _ (drawing : Drawing) (included : List String) where
  IsShown : FieldEdge → Type 0
  IsShown e = (contains e.source included ≡ true) × (contains e.target included ≡ true)

  physical-IsShown :
      (tables : List ComparisonTable) (e : FieldEdge)
      → Memᴰ e (physical_edges drawing included (shown_tables included tables))
      → IsShown e
  unfolding physical_edges physical_edge IsShown
  physical-IsShown tables e m =
      elim (Bool-cases (is_not_off drawing.options.include_physical_relationships)) [
        | inr off ↦ absurd (Memᴰ.not-nil (rw off at m))
        | inl on ↦
            let (t, listed, inside) =
              mem-flat_map _ e (shown_tables included tables) (rw on at m) in
            let (relation, kept, paired) = mem-flat_map _ e _ inside in
            let (pair, of_pair, same) = mem-map (physical_edge drawing t relation) e _ paired in
            let (from, shown) = mem-filter (λ t. contains (id_of t) included) t tables listed in
            let (there, reached) =
              mem-filter (λ relation. contains (target_id relation.foreign_key) included) relation
                t.relations kept in
            (
              ap (λ edge. contains edge.source included) same ∙ shown,
              ap (λ edge. contains edge.target included) same ∙ reached,
            )
      ]

  logical-IsShown :
      (keys : List String) (relationships : List LogicalRelationship) (e : FieldEdge)
      → Memᴰ e (logical_edges drawing included keys relationships)
      → IsShown e
  unfolding logical_edges logical_edge IsShown
  logical-IsShown keys relationships e m =
      elim (Bool-cases (is_not_off drawing.options.include_logical_relationships)) [
        | inr off ↦ absurd (Memᴰ.not-nil (rw off at m))
        | inl on ↦
            let (r, listed, inside) = mem-flat_map _ e _ (rw on at m) in
            let (pair, of_pair, same) = mem-map (logical_edge drawing r) e _ inside in
            let (there, kept) = mem-filter _ r relationships listed in
            let (left, reached) = both kept in
            let (status, shown) = both left in
            (
              ap (λ edge. contains edge.source included) same ∙ shown,
              ap (λ edge. contains edge.target included) same ∙ reached,
            )
      ]

  inferred-IsShown :
      (ignored keys others : List String) (tables : List SchemaTable) (e : FieldEdge)
      → Memᴰ e (
          map
            (inferred_edge drawing)
            (available_inferred keys others (shown_inferred included ignored tables)))
      → IsShown e
  unfolding available_inferred shown_inferred inferred_edge IsShown
  inferred-IsShown ignored keys others tables e m =
      let (r, available, same) = mem-map (inferred_edge drawing) e _ m in
      let (there, free) = mem-filter _ r (shown_inferred included ignored tables) available in
      let (inferred, kept) = mem-filter _ r (infer_relationships tables) there in
      let (ends, rest) = both (both kept).0 in
      let (shown, reached) = both ends in
      (
        ap (λ edge. contains edge.source included) same ∙ shown,
        ap (λ edge. contains edge.target included) same ∙ reached,
      )

  drawn-IsShown :
      (tables : List ComparisonTable) (logical : List LogicalRelationship) (ignored : List String)
      (candidates : List SchemaTable) (e : FieldEdge)
      → Memᴰ e (
          (drawn drawing included
            (shown_tables included tables)
            logical
            (shown_inferred included ignored candidates)).physical
          ++ (drawn drawing included
              (shown_tables included tables)
              logical
              (shown_inferred included ignored candidates)).logical
          ++ (drawn drawing included
              (shown_tables included tables)
              logical
              (shown_inferred included ignored candidates)).inferred)
      → IsShown e
  unfolding drawn
  drawn-IsShown tables logical ignored candidates e m =
      let physical = physical_edges drawing included (shown_tables included tables) in
      let logical_ones = logical_edges drawing included (physical_keys physical) logical in
      elim (Memᴰ.append_cases (physical ++ logical_ones) m) [
        | inl declared ↦ elim (Memᴰ.append_cases physical declared) [
          | inl first ↦ physical-IsShown tables e first
          | inr second ↦ logical-IsShown (physical_keys physical) logical e second
        ]
        | inr third ↦ elim (Bool-cases (is_on drawing.options.include_inferred_relationships)) [
          | inr off ↦ absurd (Memᴰ.not-nil (rw off at third))
          | inl on ↦
              inferred-IsShown ignored (physical_keys physical) (logical_keys logical) candidates e
                (rw on at third)
        ]
      ]

abbrev pub node_ids : SchemaGraph → List String
node_ids graph = map (λ node. node.id) graph.nodes

-- Every edge of a diagram joins two of its nodes, whatever the options hide.
pub build_schema_graph-joined :
    (host : Host) (snapshot : DatabaseSnapshot) (options : SchemaGraphOptions) (e : FieldEdge)
    → Memᴰ e (build_schema_graph host snapshot options).edges
    → (contains e.source (node_ids (build_schema_graph host snapshot options)) ≡ true)
      × (contains e.target (node_ids (build_schema_graph host snapshot options)) ≡ true)
unfolding build_schema_graph IsShown nodes_of node_of
build_schema_graph-joined host snapshot options e m =
    let tables = comparison_tables snapshot options.before_snapshot options.change_set in
    let logical = shown_logical snapshot options in
    let included = included_ids host tables options logical in
    let drawing : Drawing = record {
      options = options;
      highlighted = highlighted_ids tables options logical;
    } in
    let (from, to) =
      drawn-IsShown drawing included tables logical (or_else options.ignored_relationship_keys [])
        (after_tables snapshot) e m in
    let ids : node_ids (build_schema_graph host snapshot options)
        ≡ map id_of (shown_tables included tables) =
      ids-seed_nodes options _
      ∙ ids-number_nodes _ 0 (shown_tables included tables) (λ i t. refl) in
    (
      ap (contains e.source) ids ∙ contains-shown_tables host tables options logical e.source from,
      ap (contains e.target) ids ∙ contains-shown_tables host tables options logical e.target to,
    )
