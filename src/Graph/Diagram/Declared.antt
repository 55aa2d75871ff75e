-- ===== src/Graph/Diagram/Declared.antt =====
-- graph/schema-graph.ts, `buildSchemaGraph`: an inferred edge repeats no relationship that is declared.
use mathlib.Core.List.Memᴰ
use nodal_studio.Prelude.{
  String, true, false, not, List, [], ◌++◌, or_else, map, contains, string_eq, ◌≡◌, ◌≢◌, sym, ap,
  ◌∙◌, arith, Bool-cases, inl, inr, ◌⊎◌, Memᴰ, mem-map, mem-filter, if◌then◌else◌,
}
use nodal_studio.Model.{DatabaseSnapshot, LogicalRelationship}
use nodal_studio.Graph.Ids.{SchemaTable, logical_relationship_key}
use nodal_studio.Graph.Related.{is_live}
use nodal_studio.Graph.Inference.{infer_relationships, relate}
use nodal_studio.Graph.Inference.Sound.{infer_relationships-IsInferred}
use nodal_studio.Graph.Comparison.{ComparisonTable}
use nodal_studio.Graph.Comparison.Tables.{comparison_tables}
use nodal_studio.Graph.Diagram.{SchemaGraphOptions, FieldEdge, inferred, is_on}
use nodal_studio.Graph.Diagram.Shown.{
  Host, after_tables, shown_logical, included_ids, shown_tables, shown_inferred,
}
use nodal_studio.Graph.Diagram.Edges.{Drawing, physical_keys, edge_key, is_deleted}
use nodal_studio.Graph.Diagram.Added.{logical_edge, logical_keys, available_inferred, inferred_edge}
use nodal_studio.Graph.Diagram.Build.{drawn, build_schema_graph, highlighted_ids}
use nodal_studio.Graph.Diagram.Joined.{both}
use nodal_studio.Graph.Diagram.Keyed.{
  physical_ones, logical_ones, physical-kind, contains-physical_keys, IsDrawnFrom,
  logical_edges-IsDrawnFrom, contains-logical_keys, not-true, is_declared, is_inferred_kind,
}

module _ (drawing : Drawing) (included : List String) (tables : List ComparisonTable)
    (relationships : List LogicalRelationship) where
  declared-keyed :
      (f : FieldEdge)
      → Memᴰ f (
          (physical_ones drawing included tables relationships)
          ++ (logical_ones drawing included tables relationships))
      → is_declared f ≡ true
      → (contains (edge_key f) (physical_keys (physical_ones drawing included tables relationships))
          ≡ true)
        ⊎ (contains (edge_key f) (logical_keys relationships) ≡ true)
  unfolding logical_edge IsDrawnFrom
  declared-keyed f m h =
      elim (Memᴰ.append_cases (physical_ones drawing included tables relationships) m) [
        | inl first ↦
            let present : is_deleted f.details.change_status ≡ false =
              ground
                (arith, rw ((physical-kind drawing included tables relationships) f first) at h) in
            inl ((contains-physical_keys drawing included tables relationships) f first present)
        | inr second ↦
            let (r, listed, pair, paired, same) =
              (logical_edges-IsDrawnFrom drawing included tables relationships) f second in
            let live : is_live r.status ≡ true = sym (ap is_declared same) ∙ h in
            inr (
              ap (λ edge. contains (edge_key edge) (logical_keys relationships)) same
              ∙ (contains-logical_keys drawing included tables relationships) r pair listed paired
                  live)
      ]

  inferred-free :
      (ignored : List String) (candidates : List SchemaTable) (e : FieldEdge)
      → Memᴰ e (
          map (inferred_edge drawing) (
            available_inferred
              (physical_keys (physical_ones drawing included tables relationships))
              (logical_keys relationships)
              (shown_inferred included ignored candidates)))
      → (contains (edge_key e) (physical_keys (physical_ones drawing included tables relationships))
          ≡ false)
        × (contains (edge_key e) (logical_keys relationships) ≡ false)
  unfolding available_inferred shown_inferred inferred_edge relate
  inferred-free ignored candidates e m =
      let (r, available, same) = mem-map (inferred_edge drawing) e _ m in
      let (there, free) = mem-filter _ r (shown_inferred included ignored candidates) available in
      let (listed, kept) = mem-filter _ r (infer_relationships candidates) there in
      let origin = infer_relationships-IsInferred candidates r listed in
      let key : edge_key e ≡ r.relationship_key =
        ap edge_key same
        ∙ (ap (λ i. logical_relationship_key i.source_id i.column i.target_id i.referenced_column)
              origin.shown
            ∙ sym (ap (λ i. i.relationship_key) origin.shown)) in
      let (p, q) =
        both
          {a = not (
            contains r.relationship_key
              (physical_keys (physical_ones drawing included tables relationships)))}
          {b = not (contains r.relationship_key (logical_keys relationships))} free in
      (
        ap (λ k. contains k (physical_keys (physical_ones drawing included tables relationships)))
              key
            ∙ not-true p,
        ap (λ k. contains k (logical_keys relationships)) key ∙ not-true q,
      )

  repeated :
      (ignored : List String) (candidates : List SchemaTable) (e f : FieldEdge)
      → Memᴰ e (
          map (inferred_edge drawing) (
            available_inferred
              (physical_keys (physical_ones drawing included tables relationships))
              (logical_keys relationships)
              (shown_inferred included ignored candidates)))
      → Memᴰ f (
          (physical_ones drawing included tables relationships)
          ++ (logical_ones drawing included tables relationships))
      → is_declared f ≡ true
      → edge_key e ≢ edge_key f
  repeated ignored candidates e f m k h same =
      let (p, q) = inferred-free ignored candidates e m in
      elim (declared-keyed f k h) [
        | inl listed ↦ absurd (
            cc (
              p,
              listed,
              ap
                  (λ k.
                    contains k
                      (physical_keys (physical_ones drawing included tables relationships)))
                  same,
            ))
        | inr listed ↦
            absurd (cc (q, listed, ap (λ k. contains k (logical_keys relationships)) same))
      ]

  module _ (ignored : List String) (candidates : List SchemaTable) where
    abbrev available_ones : List FieldEdge
    available_ones = map (inferred_edge drawing) (
        available_inferred (physical_keys (physical_ones drawing included tables relationships))
          (logical_keys relationships) (shown_inferred included ignored candidates))

    abbrev inferred_ones : List FieldEdge
    inferred_ones =
        if is_on drawing.options.include_inferred_relationships then available_ones else []

    inferred-available : (e : FieldEdge) → Memᴰ e inferred_ones → Memᴰ e available_ones
    inferred-available e m =
        elim (Bool-cases (is_on drawing.options.include_inferred_relationships)) [
          | inr off ↦ absurd (Memᴰ.not-nil (rw off at m))
          | inl on ↦ rw on at m
        ]

    kind-declared :
        (e : FieldEdge)
        → Memᴰ e (
            (physical_ones drawing included tables relationships)
            ++ (logical_ones drawing included tables relationships))
        → is_inferred_kind e.details.relationship_kind ≡ false
    unfolding logical_edge IsDrawnFrom
    kind-declared e m =
        elim (Memᴰ.append_cases (physical_ones drawing included tables relationships) m) [
          | inl first ↦
              ap is_inferred_kind ((physical-kind drawing included tables relationships) e first)
          | inr second ↦
              let (r, listed, pair, paired, same) =
                (logical_edges-IsDrawnFrom drawing included tables relationships) e second in
              ap (λ edge. is_inferred_kind edge.details.relationship_kind) same
        ]

    inferred_only :
        (e : FieldEdge)
        → Memᴰ e (
            ((physical_ones drawing included tables relationships)
              ++ (logical_ones drawing included tables relationships))
            ++ inferred_ones)
        → e.details.relationship_kind ≡ inferred
        → Memᴰ e available_ones
    inferred_only e m h =
        elim (Memᴰ.append_cases
          ((physical_ones drawing included tables relationships)
            ++ (logical_ones drawing included tables relationships))
          m) [
            | inl declared ↦ absurd (
                let kind : is_inferred_kind e.details.relationship_kind ≡ true =
                  ap is_inferred_kind h in
                cc (kind, kind-declared e declared))
            | inr third ↦ inferred-available e third
          ]

    declared_only :
        (f : FieldEdge)
        → Memᴰ f (
            ((physical_ones drawing included tables relationships)
              ++ (logical_ones drawing included tables relationships))
            ++ inferred_ones)
        → is_declared f ≡ true
        → Memᴰ f (
            (physical_ones drawing included tables relationships)
            ++ (logical_ones drawing included tables relationships))
    unfolding inferred_edge
    declared_only f m h =
        elim (Memᴰ.append_cases
          ((physical_ones drawing included tables relationships)
            ++ (logical_ones drawing included tables relationships))
          m) [
            | inl declared ↦ declared
            | inr third ↦
                let (r, listed, same) =
                  mem-map (inferred_edge drawing) f _ (inferred-available f third) in
                absurd (let bad : is_declared f ≡ false = ap is_declared same in cc (bad, h))
          ]

-- An inferred edge of a diagram joins no pair of columns that another of its edges joins for a foreign key
-- that is not deleted, or for a logical relationship that is neither disabled nor orphaned.
pub build_schema_graph-no_repetition :
    (host : Host) (snapshot : DatabaseSnapshot) (options : SchemaGraphOptions) (e f : FieldEdge)
    → Memᴰ e (build_schema_graph host snapshot options).edges
    → Memᴰ f (build_schema_graph host snapshot options).edges
    → e.details.relationship_kind ≡ inferred
    → is_declared f ≡ true
    → edge_key e ≢ edge_key f
unfolding build_schema_graph drawn
build_schema_graph-no_repetition host snapshot options e f m k h declared =
    let tables = comparison_tables snapshot options.before_snapshot options.change_set in
    let relationships = shown_logical snapshot options in
    let included = included_ids host tables options relationships in
    let drawing : Drawing = record {
      options = options;
      highlighted = highlighted_ids tables options relationships;
    } in
    let shown = shown_tables included tables in
    let ignored = or_else options.ignored_relationship_keys [] in
    let from =
      inferred_only drawing included shown relationships ignored (after_tables snapshot) e m h in
    let of =
      declared_only drawing included shown relationships ignored (after_tables snapshot) f k
        declared in
    repeated drawing included shown relationships ignored (after_tables snapshot) e f from of
      declared
