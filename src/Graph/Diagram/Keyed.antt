-- ===== src/Graph/Diagram/Keyed.antt =====
-- graph/schema-graph.ts, `buildSchemaGraph`: what is drawn of a declared relationship has a key that the code collects.
use mathlib.Core.List.Memᴰ
use nodal_studio.Prelude.{
  ℕ, String, Bool, true, false, not, List, [], ◌∷◌, none, some, map, filter, flat_map, contains,
  contains-of_list, string_eq, ◌≡◌, refl, sym, ap, ◌∙◌, arith, Bool-cases, inl, inr, Memᴰ,
  mem-flat_map, mem-flat_map_intro, mem-map, mem-map_intro, mem-filter, mem-filter_intro,
  agree_refl,
}
use nodal_studio.Model.{LogicalRelationship}
use nodal_studio.Graph.Ids.{logical_relationship_key}
use nodal_studio.Graph.Related.{endpoint_id, target_id, is_live}
use nodal_studio.Graph.Comparison.{ComparisonTable}
use nodal_studio.Graph.Comparison.Relations.{ComparisonRelation}
use nodal_studio.Graph.Diagram.{
  FieldEdge, RelationshipKind, physical, logical, inferred, is_not_off,
}
use nodal_studio.Graph.Diagram.Edges.{
  Drawing, physical_edge, physical_edges, physical_keys, column_pairs, edge_key, is_deleted,
}
use nodal_studio.Graph.Diagram.Added.{logical_edge, logical_edges, logical_keys, free_pairs}
use nodal_studio.Graph.Diagram.Closed.{contains-map_mem}

pub not-true : {b : Bool} → not b ≡ true → b ≡ false
not-true h = ground arith

pub contains-mem : (a : String) (xs : List String) → Memᴰ a xs → contains a xs ≡ true
unfolding contains
contains-mem a [] m = absurd (Memᴰ.not-nil m)
contains-mem a (x ∷ xs) m = elim (Memᴰ.cases_cons m) [
  | inl same ↦ rw (sym same, agree_refl a) refl
  | inr later ↦ rw (contains-mem a xs later) (ground arith)
]

-- A relationship that is declared and holds: a foreign key that is not deleted, or a logical one that is neither disabled
-- nor orphaned.
abbrev pub is_declared : FieldEdge → Bool
is_declared e = elim e.details.relationship_kind [
  | physical ↦ not (is_deleted e.details.change_status)
  | logical ↦ elim e.details.relationship_status [ none ↦ false | some status ↦ is_live status ]
  | inferred ↦ false
]

abbrev pub is_inferred_kind : RelationshipKind → Bool
is_inferred_kind inferred = true
is_inferred_kind other = false

module _ (drawing : Drawing) (included : List String) (tables : List ComparisonTable)
    (relationships : List LogicalRelationship) where
  -- The edges of each kind; an inferred one comes from a relationship that is available.
  abbrev pub physical_ones : List FieldEdge
  physical_ones = physical_edges drawing included tables

  abbrev pub logical_ones : List FieldEdge
  logical_ones = logical_edges drawing included (physical_keys physical_ones) relationships

  pub physical-kind :
      (e : FieldEdge) → Memᴰ e physical_ones → e.details.relationship_kind ≡ physical
  unfolding physical_edges physical_edge
  physical-kind e m =
      elim (Bool-cases (is_not_off drawing.options.include_physical_relationships)) [
        | inr off ↦ absurd (Memᴰ.not-nil (rw off at m))
        | inl on ↦
            let (t, listed, inside) = mem-flat_map _ e tables (rw on at m) in
            let pairs = λ (relation : ComparisonRelation).
              column_pairs 0 relation.foreign_key.columns relation.foreign_key.referenced_columns in
            let (relation, kept, paired) =
              mem-flat_map (λ relation. map (physical_edge drawing t relation) (pairs relation)) e
                (filter (λ relation. contains (target_id relation.foreign_key) included)
                  t.relations)
                inside in
            let (pair, of_pair, same) =
              mem-map (physical_edge drawing t relation) e (pairs relation) paired in
            ap (λ edge. edge.details.relationship_kind) same
      ]

  pub contains-physical_keys :
      (f : FieldEdge)
      → Memᴰ f physical_ones
      → is_deleted f.details.change_status ≡ false
      → contains (edge_key f) (physical_keys physical_ones) ≡ true
  contains-physical_keys f m h =
      let kept =
        mem-filter_intro (λ e. not (is_deleted e.details.change_status)) f physical_ones m
          (ap not h) in
      contains-of_list (edge_key f) _ ∙ contains-map_mem edge_key f _ kept

  unfoldable pub IsDrawnFrom : FieldEdge → Type 0
  IsDrawnFrom e =
      (r : LogicalRelationship) × Memᴰ r relationships
      × (pair : ℕ × String × String) × Memᴰ pair (column_pairs 0 r.source.columns r.target.columns)
      × (e ≡ logical_edge drawing r pair)

  pub logical_edges-IsDrawnFrom : (e : FieldEdge) → Memᴰ e logical_ones → IsDrawnFrom e
  unfolding logical_edges free_pairs IsDrawnFrom
  logical_edges-IsDrawnFrom e m =
      elim (Bool-cases (is_not_off drawing.options.include_logical_relationships)) [
        | inr off ↦ absurd (Memᴰ.not-nil (rw off at m))
        | inl on ↦
            let (r, listed, inside) = mem-flat_map _ e _ (rw on at m) in
            let (pair, free, same) = mem-map (logical_edge drawing r) e _ inside in
            let (there, kept) = mem-filter _ r relationships listed in
            let (paired, other) =
              mem-filter _ pair (column_pairs 0 r.source.columns r.target.columns) free in
            (r, there, pair, paired, same)
      ]

  pub contains-logical_keys :
      (r : LogicalRelationship) (pair : ℕ × String × String)
      → Memᴰ r relationships
      → Memᴰ pair (column_pairs 0 r.source.columns r.target.columns)
      → is_live r.status ≡ true
      → contains (edge_key (logical_edge drawing r pair)) (logical_keys relationships) ≡ true
  unfolding logical_keys logical_edge
  contains-logical_keys r pair listed paired live =
      let keys = λ (r : LogicalRelationship).
        map
          (λ (p : ℕ × String × String).
            logical_relationship_key (endpoint_id r.source) p.1 (endpoint_id r.target) p.2)
          (column_pairs 0 r.source.columns r.target.columns) in
      let inside = mem-map_intro _ pair _ paired in
      let there = mem-filter_intro (λ r. is_live r.status) r relationships listed live in
      let listed_key = edge_key (logical_edge drawing r pair) in
      let all_keys = flat_map keys (filter (λ r. is_live r.status) relationships) in
      contains-of_list listed_key all_keys
      ∙ contains-mem listed_key all_keys (mem-flat_map_intro keys _ r _ there inside)
