-- ===== src/Graph/Diagram/Orient/Laws.antt =====
-- graph/schema-graph.ts, `orientFieldEdges`: the sides of oriented edges.
use mathlib.Core.List.Memᴰ
use nodal_studio.Prelude.{
  String, Bool, true, false, ◌&◌, contains, is_set, insert, insert_all, lookup-insert, arith, Memᴰ,
  ◌&&◌, List, [], ◌∷◌, some, map, lookup, of_pairs, ◌==◌, string_eq, ◌≡◌, refl, sym, ap, ◌∙◌,
  Option-cases, Bool-cases, inl, inr, ◌⊎◌, agree_refl,
}
use nodal_studio.Graph.Diagram.{FieldEdge, PortType}
use nodal_studio.Graph.Diagram.Labels.{field_handle_id}
use nodal_studio.Graph.Diagram.Joined.{both}
use nodal_studio.Graph.Diagram.Edges.{edge_key}
use nodal_studio.Graph.Diagram.Orient.{
  is_aligned, Numbers, Place, orient_edge, orient_field_edges, place_edge, handle_at, source_side,
  target_side,
}

module _ {Num : Type 0} (numbers : Numbers Num) where
  is_placed : Place Num → Place Num → FieldEdge → Bool
  is_placed source target edge =
      edge.source_handle
        == handle_at edge PortType.source edge.details.source_column
            (source_side numbers source target)
      && edge.target_handle
        == handle_at edge PortType.target edge.details.target_column
            (target_side numbers source target)

  orient_edge-twice :
      (source target : Place Num) (edge : FieldEdge)
      → orient_edge numbers source target (orient_edge numbers source target edge)
        ≡ orient_edge numbers source target edge
  unfolding orient_edge is_placed
  orient_edge-twice source target edge = elim (Bool-cases (is_placed source target edge)) [
    | inl e ↦ rw (e, e) refl
    | inr e ↦
        rw
          (
            e,
            agree_refl (
                handle_at edge PortType.source edge.details.source_column
                  (source_side numbers source target)),
            agree_refl (
                handle_at edge PortType.target edge.details.target_column
                  (target_side numbers source target)),
          )
          refl
  ]

  orient_edge-ends :
      (source target : Place Num) (edge : FieldEdge)
      → ((orient_edge numbers source target edge).source ≡ edge.source)
        × ((orient_edge numbers source target edge).target ≡ edge.target)
        × ((orient_edge numbers source target edge).id ≡ edge.id)
        × (edge_key (orient_edge numbers source target edge) ≡ edge_key edge)
  unfolding orient_edge is_placed
  orient_edge-ends source target edge = elim (Bool-cases (is_placed source target edge)) [
    | inl e ↦ rw e (refl, refl, refl, refl)
    | inr e ↦ rw e (refl, refl, refl, refl)
  ]

  -- An edge is left alone, or oriented between the places of its ends.
  place_edge-cases :
      (positions : List (String × Place Num)) (edge : FieldEdge)
      → (place_edge numbers positions edge ≡ edge)
        ⊎ ((source : Place Num) × (target : Place Num) × (lookup edge.source positions
              ≡ some source)
            × (lookup edge.target positions ≡ some target))
  place_edge-cases positions edge = elim (Option-cases (lookup edge.source positions)) [
    | inl e ↦ inl (rw (e, place_edge) refl)
    | inr (source, e) ↦ elim (Option-cases (lookup edge.target positions)) [
      | inl h ↦ inl (rw (e, h, place_edge) refl)
      | inr (target, h) ↦ inr (source, target, e, h)
    ]
  ]

  place_edge-orient :
      (positions : List (String × Place Num)) (edge : FieldEdge) (source target : Place Num)
      → lookup edge.source positions ≡ some source
      → lookup edge.target positions ≡ some target
      → place_edge numbers positions edge ≡ orient_edge numbers source target edge
  place_edge-orient positions edge source target e h = rw (e, h, place_edge) refl

  place_edge-twice :
      (positions : List (String × Place Num)) (edge : FieldEdge)
      → place_edge numbers positions (place_edge numbers positions edge)
        ≡ place_edge numbers positions edge
  place_edge-twice positions edge = elim (place_edge-cases positions edge) [
    | inl same ↦ ap (place_edge numbers positions) same
    | inr (source, target, e, h) ↦
        let (from, to, name, key) = orient_edge-ends source target edge in
        let once = place_edge-orient positions edge source target e h in
        ap (place_edge numbers positions) once
        ∙ (place_edge-orient positions (orient_edge numbers source target edge) source target
              (ap (λ id. lookup id positions) from ∙ e) (ap (λ id. lookup id positions) to ∙ h)
            ∙ (orient_edge-twice source target edge ∙ sym once))
  ]

  place_edge-key :
      (positions : List (String × Place Num)) (edge : FieldEdge)
      → ((place_edge numbers positions edge).id ≡ edge.id)
        × (edge_key (place_edge numbers positions edge) ≡ edge_key edge)
  place_edge-key positions edge = elim (place_edge-cases positions edge) [
    | inl same ↦ (ap (λ edge. edge.id) same, ap edge_key same)
    | inr (source, target, e, h) ↦
        let (from, to, name, key) = orient_edge-ends source target edge in
        let once = place_edge-orient positions edge source target e h in
        (ap (λ edge. edge.id) once ∙ name, ap edge_key once ∙ key)
  ]

  map-twice :
      (f : FieldEdge → FieldEdge) (edges : List FieldEdge)
      → ((edge : FieldEdge) → f (f edge) ≡ f edge)
      → map f (map f edges) ≡ map f edges
  map-twice f [] h = refl
  map-twice f (edge ∷ edges) h = rw (h edge, map-twice f edges h) refl

  -- The sides that two tables turn to each other: both right if one stands above the other, else those that face.
  abbrev pub facing : Bool → Bool → String × String
  facing true is_left = ("right", "right")
  facing false true = ("right", "left")
  facing false false = ("left", "right")

  abbrev pub handle_name : Bool → String → String → String → String
  handle_name true kind column side = kind & ":" & column & ":" & side
  handle_name false kind column side = "table-" & kind & "-" & side

  handle-cases :
      (edge : FieldEdge) (field_level near is_left : Bool) (source target : Place Num)
      → edge.details.field_level ≡ field_level
      → is_aligned numbers source target ≡ near
      → numbers.less source.x target.x ≡ is_left
      → (handle_at edge PortType.source edge.details.source_column
            (source_side numbers source target)
          ≡ handle_name field_level "source" edge.details.source_column (facing near is_left).0)
        × (handle_at edge PortType.target edge.details.target_column
              (target_side numbers source target)
            ≡ handle_name field_level "target" edge.details.target_column (facing near is_left).1)
  unfolding field_handle_id
  handle-cases edge true true is_left source target f n l = rw (f, n) (refl, refl)
  handle-cases edge true false true source target f n l = rw (f, n, l) (refl, refl)
  handle-cases edge true false false source target f n l = rw (f, n, l) (refl, refl)
  handle-cases edge false true is_left source target f n l = rw (f, n) (refl, refl)
  handle-cases edge false false true source target f n l = rw (f, n, l) (refl, refl)
  handle-cases edge false false false source target f n l = rw (f, n, l) (refl, refl)

  orient_edge-handles :
      (source target : Place Num) (edge : FieldEdge)
      → ((orient_edge numbers source target edge).source_handle
          ≡ handle_at edge PortType.source edge.details.source_column
              (source_side numbers source target))
        × ((orient_edge numbers source target edge).target_handle
            ≡ handle_at edge PortType.target edge.details.target_column
                (target_side numbers source target))
  unfolding orient_edge is_placed
  orient_edge-handles source target edge = elim (Bool-cases (is_placed source target edge)) [
    | inl e ↦
        let (p, q) = both e in rw e ((string_eq.agree_iff _ _).0 p, (string_eq.agree_iff _ _).0 q)
    | inr e ↦ rw e (refl, refl)
  ]

  abbrev entries : List (Place Num) → List (String × Place Num)
  entries nodes = map (λ node. (node.id, node)) nodes

  lookup-absent :
      (key : String) (m : List (String × Place Num)) (nodes : List (Place Num))
      → contains key (map (λ node. node.id) nodes) ≡ false
      → lookup key (insert_all m (entries nodes)) ≡ lookup key m
  unfolding contains
  lookup-absent key m [] h = refl
  lookup-absent key m (node ∷ nodes) h =
      lookup-absent key (insert node.id node m) nodes (ground arith)
      ∙ (lookup-insert node.id key node m ∙ ground arith)

  -- Where no identifier stands twice, a node is found under its own.
  lookup-listed :
      (node : Place Num) (m : List (String × Place Num)) (nodes : List (Place Num))
      → is_set (map (λ node. node.id) nodes) ≡ true
      → Memᴰ node nodes
      → lookup node.id (insert_all m (entries nodes)) ≡ some node
  unfolding is_set
  lookup-listed node m [] h listed = absurd (Memᴰ.not-nil listed)
  lookup-listed node m (first ∷ nodes) h listed = elim (Memᴰ.cases_cons listed) [
    | inl same ↦
        let alone : contains first.id (map (λ node. node.id) nodes) ≡ false = ground arith in
        ap (λ n. lookup n.id (insert_all (insert first.id first m) (entries nodes))) same
        ∙ (lookup-absent first.id (insert first.id first m) nodes alone
            ∙ (lookup-insert first.id first.id first m
                ∙ (rw (agree_refl first.id) refl ∙ ap some (sym same))))
    | inr later ↦ lookup-listed node (insert first.id first m) nodes (ground arith) later
  ]

  -- Every edge between two nodes with identifiers of their own is among the oriented edges under its identifier and columns.
  -- Its handles name the right sides if the nodes are less than 80 apart across, else the sides on which they face each
  -- other. Orienting once more at the same positions changes nothing.
  pub orient_field_edges_lem :
      (edges : List FieldEdge) (nodes : List (Place Num)) (edge : FieldEdge) (from to : Place Num)
      → is_set (map (λ node. node.id) nodes) ≡ true
      → Memᴰ edge edges
      → Memᴰ from nodes
      → Memᴰ to nodes
      → edge.source ≡ from.id
      → edge.target ≡ to.id
      → let near =
          numbers.less (numbers.absolute (numbers.subtract from.x to.x)) (numbers.number 80) in
        let sides = facing near (numbers.less from.x to.x) in
        ((oriented : FieldEdge) × Memᴰ oriented (orient_field_edges numbers edges nodes)
          × (oriented.id ≡ edge.id)
          × (edge_key oriented ≡ edge_key edge)
          × (oriented.source_handle
              ≡ handle_name edge.details.field_level "source" edge.details.source_column sides.0)
          × (oriented.target_handle
              ≡ handle_name edge.details.field_level "target" edge.details.target_column sides.1))
        × (orient_field_edges numbers (orient_field_edges numbers edges nodes) nodes
            ≡ orient_field_edges numbers edges nodes)
  unfolding orient_field_edges
  orient_field_edges_lem edges nodes edge from to distinct listed from_listed to_listed s t =
      let positions = of_pairs (map (λ (node : Place Num). (node.id, node)) nodes) in
      let once =
        place_edge-orient positions edge from to
          (ap (λ id. lookup id positions) s ∙ lookup-listed from [] nodes distinct from_listed)
          (ap (λ id. lookup id positions) t ∙ lookup-listed to [] nodes distinct to_listed) in
      let (source, target) = orient_edge-handles from to edge in
      let (left, right) =
        handle-cases edge edge.details.field_level (is_aligned numbers from to)
          (numbers.less from.x to.x) from to refl refl refl in
      let (id, key) = place_edge-key positions edge in
      (
        (
          place_edge numbers positions edge,
          Memᴰ.map (place_edge numbers positions) listed,
          id,
          key,
          ap (λ e. e.source_handle) once ∙ (source ∙ left),
          ap (λ e. e.target_handle) once ∙ (target ∙ right),
        ),
        map-twice (place_edge numbers positions) edges (place_edge-twice positions),
      )
