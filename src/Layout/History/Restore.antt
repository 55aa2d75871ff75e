-- ===== src/Layout/History/Restore.antt =====
-- An undo restores the geometry before the recorded edit.
use nodal_studio.Prelude.{
  ℕ, ◌≤◌, String, Bool, true, false, not, ◌&&◌, ◌||◌, List, [], ◌∷◌, map, Option, none, some, ◌≡◌,
  refl, sym, ◌∙◌, ap, arith, Eq, ◌==◌, string_eq, option_eq, contains-of_list, of_list, List-cases,
  inl, inr, Bool-cases, lookup, contains, keys, is_set, is_some, mem-map, all, or_else, agree_refl,
  if◌then◌else◌, insert, insert_all, lookup-insert, Memᴰ,
}
use mathlib.Core.List.Memᴰ
use nodal_studio.Model.{CanvasNodeLayout}
use nodal_studio.Layout.History.Patches.{
  layout-ext, lookup-patches_of, known-patches_of, push_past-top, restore_node-none,
  restore_node-some, id-restore_node, same_layout-eq,
}
use nodal_studio.Layout.History.{
  TableNode, GeometryPatch, LayoutEdit, DiagramLayoutHistory, LayoutFrame, backward, same_keys,
  patches_of, sides_of, sides_to, patch_of, same_layout, capture_node, capture_layout_frame,
  push_past, record_edit, has_ids, undo, apply_patch, restore_node, set_table_pinned, bool_eq,
  dimension, keep, changed, flatten,
}

module _ {Num : Type 0} ⦃num : Eq Num⦄ (valid : Num → Bool) where
  -- A frame's entry as a capture writes it: sizes that are valid, and a pin that is set or absent.
  abbrev is_size : Option Num → Bool
  is_size none = false
  is_size (some n) = valid n

  abbrev pub is_captured : CanvasNodeLayout Num → Bool
  is_captured b = is_size b.width && (is_size b.height && not (b.pinned == some false))

  position-kept : (b a : Num) → or_else (changed b a b) a ≡ b
  position-kept b a = ground (arith, num.agree_iff b a)

  -- The captured size after a patch of the size.
  size-kept :
      (b measured given styled : Option Num) (default : Num)
      → is_size b ≡ true
      → let a : Option Num = some (or_else (dimension valid measured given styled) default) in
        let p : Option Num = flatten (changed b a b) in
        some (or_else (dimension valid (keep p measured) (keep p given) (keep p styled)) default)
        ≡ b
  size-kept none measured given styled default h = cc
  size-kept (some w) measured given styled default h =
      elim (Bool-cases (w == or_else (dimension valid measured given styled) default)) [
        | inl e ↦ rw e (
            ap some (
              sym
                ((num.agree_iff w (or_else (dimension valid measured given styled) default)).0 e)))
        | inr e ↦ rw (e, h) refl
      ]

  pin-kept :
      (b : Option Bool) (n : TableNode Num)
      → (b == some false) ≡ false
      → let p : Option (Option Bool) = changed b (if n.layout_pinned then some true else none) b in
        let m : TableNode Num = elim p [
          | none ↦ n
          | some q ↦ set_table_pinned n (q == some true)
        ] in
        (if m.layout_pinned then some true else none) ≡ b
  unfolding set_table_pinned
  pin-kept none n h = elim (Bool-cases n.layout_pinned) [
    | inl e ↦ ground arith
    | inr e ↦ ground arith
  ]
  pin-kept (some true) n h = elim (Bool-cases n.layout_pinned) [
    | inl e ↦ ground arith
    | inr e ↦ ground arith
  ]
  pin-kept (some false) n h = cc

  capture-apply_patch :
      (b : CanvasNodeLayout Num) (n : TableNode Num)
      → is_captured b ≡ true
      → capture_node valid (apply_patch (patch_of b (capture_node valid n) b) n) ≡ b
  unfolding apply_patch patch_of capture_node set_table_pinned
  capture-apply_patch b n h =
      layout-ext _ b (position-kept b.x n.x) (position-kept b.y n.y)
        (size-kept b.width n.measured_width n.width n.style_width n.default_width (ground arith))
        (size-kept b.height n.measured_height n.height n.style_height n.default_height
          (ground arith))
        (pin-kept b.pinned n (ground arith))

  abbrev entry : TableNode Num → String × CanvasNodeLayout Num
  entry n = (n.id, capture_node valid n)

  abbrev ids : List (TableNode Num) → List String
  ids = map (λ n. n.id)

  is_some-captures :
      (m : LayoutFrame Num) (nodes : List (TableNode Num)) (id : String)
      → is_some (lookup id (insert_all m (map entry nodes)))
        ≡ (is_some (lookup id m) || contains id (ids nodes))
  unfolding contains
  is_some-captures m [] id = ground arith
  is_some-captures m (n ∷ nodes) id = ground (
    arith,
    is_some-captures (insert n.id (capture_node valid n) m) nodes id,
    lookup-insert n.id id (capture_node valid n) m,
  )

  lookup-captures_absent :
      (m : LayoutFrame Num) (nodes : List (TableNode Num)) (id : String)
      → contains id (ids nodes) ≡ false
      → lookup id (insert_all m (map entry nodes)) ≡ lookup id m
  unfolding contains
  lookup-captures_absent m [] id h = refl
  lookup-captures_absent m (n ∷ nodes) id h = ground (
    arith,
    lookup-captures_absent (insert n.id (capture_node valid n) m) nodes id,
    lookup-insert n.id id (capture_node valid n) m,
  )

  lookup-captures :
      (m : LayoutFrame Num) (nodes : List (TableNode Num)) (n : TableNode Num)
      → is_set (ids nodes) ≡ true
      → Memᴰ n nodes
      → lookup n.id (insert_all m (map entry nodes)) ≡ some (capture_node valid n)
  unfolding is_set
  lookup-captures m [] n h k = absurd (Memᴰ.not-nil k)
  lookup-captures m (o ∷ nodes) n h k = elim (Memᴰ.cases_cons k) [
    | inl same ↦ rw same (
        lookup-captures_absent (insert o.id (capture_node valid o) m) nodes o.id (ground arith)
        ∙ (lookup-insert o.id o.id (capture_node valid o) m ∙ rw (agree_refl o.id) refl))
    | inr later ↦
        lookup-captures (insert o.id (capture_node valid o) m) nodes n (ground arith) later
  ]

  all-lookup :
      (entries : LayoutFrame Num) (id : String) (b : CanvasNodeLayout Num)
      → all (λ e. is_captured e.1) entries ≡ true
      → lookup id entries ≡ some b
      → is_captured b ≡ true
  unfolding lookup
  all-lookup [] id b h e = cc
  all-lookup ((j, p) ∷ entries) id b h e = elim (Bool-cases (j == id)) [
    | inl k ↦ let same : p ≡ b = ground arith in rw (← same) (ground arith)
    | inr k ↦ all-lookup entries id b (ground arith) (ground arith)
  ]

  module _ (frame : LayoutFrame Num) (nodes : List (TableNode Num)) (label : String) where
    abbrev next_frame : LayoutFrame Num
    next_frame = capture_layout_frame valid nodes

    abbrev edit : LayoutEdit Num
    edit = record { label = label; patches = patches_of frame next_frame }

    has_ids-edit : has_ids edit nodes ≡ true
    unfolding capture_layout_frame lookup
    has_ids-edit =
        rw
          (known-patches_of frame next_frame (of_list (ids nodes))
            (λ id h. ground (arith, is_some-captures [] nodes id, contains-of_list id (ids nodes))))
          refl

    restored :
        (n : TableNode Num) (b : CanvasNodeLayout Num)
        → is_set (keys frame) ≡ true
        → is_set (ids nodes) ≡ true
        → is_captured b ≡ true
        → Memᴰ n nodes
        → lookup n.id frame ≡ some b
        → capture_node valid (restore_node edit backward n) ≡ b
    unfolding sides_of capture_layout_frame
    restored n b p q c m e =
        let found = lookup-patches_of frame next_frame n.id b p e in
        let shown : lookup n.id next_frame ≡ some (capture_node valid n) =
          lookup-captures [] nodes n q m in
        let sides : lookup n.id (patches_of frame next_frame) ≡ sides_of b (capture_node valid n) =
          found ∙ ap (λ o. sides_to o b) shown in
        elim (Bool-cases (same_layout b (capture_node valid n))) [
          | inl s ↦
              let kept : lookup n.id (patches_of frame next_frame) ≡ none = sides ∙ rw s refl in
              ap (capture_node valid) (restore_node-none edit n kept)
              ∙ sym (same_layout-eq b (capture_node valid n) s)
          | inr s ↦
              let patched : lookup n.id (patches_of frame next_frame)
                  ≡ some (
                    patch_of b (capture_node valid n) b,
                    patch_of b (capture_node valid n) (capture_node valid n),
                  ) =
                sides ∙ rw s refl in
              ap (capture_node valid) (restore_node-some edit n _ patched)
              ∙ capture-apply_patch b n c
        ]

    past-record_edit :
        (limit : ℕ) (h : DiagramLayoutHistory Num)
        (patch : String × (GeometryPatch Num × GeometryPatch Num))
        (patches : List (String × (GeometryPatch Num × GeometryPatch Num)))
        → same_keys frame next_frame ≡ true
        → patches_of frame next_frame ≡ patch ∷ patches
        → (record_edit limit h frame next_frame label).1.past ≡ push_past limit edit h.past
    unfolding record_edit
    past-record_edit limit h patch patches k e =
        let pushed : (record_edit limit h frame next_frame label).1.past
            ≡ push_past limit (record { label = label; patches = patch ∷ patches }) h.past =
          rw (k, e) refl in
        pushed ∙ ap (λ ps. push_past limit (record { label = label; patches = ps }) h.past) (sym e)

  undo-top :
      (h : DiagramLayoutHistory Num) (nodes : List (TableNode Num)) (e : LayoutEdit Num)
      (rest : List (LayoutEdit Num))
      → h.past ≡ e ∷ rest
      → has_ids e nodes ≡ true
      → (undo h nodes).0 ≡ some (map (restore_node e backward) nodes, e.label)
  unfolding undo
  undo-top h nodes e rest p k = ground arith

  -- After a recording that returns true, an undo on the nodes that were recorded as the frame after
  -- succeeds with the recorded label, and every node has the geometry of the frame before. The
  -- limit is at least one, ids are not repeated, and the frame before has valid sizes and no pin
  -- that is false.
  pub undo-record_edit :
      (limit : ℕ) (h : DiagramLayoutHistory Num) (frame : LayoutFrame Num)
      (nodes : List (TableNode Num)) (label : String)
      → 1 ≤ limit
      → is_set (keys frame) ≡ true
      → is_set (map (λ n. n.id) nodes) ≡ true
      → all (λ e. is_captured e.1) frame ≡ true
      → (record_edit limit h frame (capture_layout_frame valid nodes) label).0 ≡ true
      → (result : List (TableNode Num)) × ((undo
            (record_edit limit h frame (capture_layout_frame valid nodes) label).1
            nodes).0
          ≡ some (result, label))
        × ((n : TableNode Num) (b : CanvasNodeLayout Num)
            → Memᴰ n result
            → lookup n.id frame ≡ some b
            → capture_node valid n ≡ b)
  unfolding record_edit undo
  undo-record_edit limit h frame nodes label one p q c recorded =
      elim (Bool-cases (same_keys frame (capture_layout_frame valid nodes))) [
        | inr k ↦ absurd (let stays : false ≡ true = rw k at recorded in cc)
        | inl k ↦ elim (List-cases (patches_of frame (capture_layout_frame valid nodes))) [
          | inl e ↦ absurd (let stays : false ≡ true = rw (k, e) at recorded in cc)
          | inr (patch, patches, e) ↦
              let (rest, top) = push_past-top limit (edit frame nodes label) h.past one in
              (
                map (restore_node (edit frame nodes label) backward) nodes,
                undo-top _ nodes (edit frame nodes label) rest
                    (past-record_edit frame nodes label limit h patch patches k e ∙ top)
                    (has_ids-edit frame nodes label),
                λ n b m found.
                    let (o, listed, same) =
                      mem-map (restore_node (edit frame nodes label) backward) n nodes m in
                    let at : lookup o.id frame ≡ some b =
                      ap (λ id. lookup id frame)
                        (sym (
                          ap (λ x. x.id) same
                          ∙ id-restore_node (edit frame nodes label) backward o))
                      ∙ found in
                    rw same
                      (restored frame nodes label o b p q (all-lookup frame o.id b c at) listed at),
              )
        ]
      ]
