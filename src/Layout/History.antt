-- ===== src/Layout/History.antt =====
-- graph/layout-history.ts: undo and redo of changes to the geometry of a diagram. Coordinates and
-- sizes are of a type `Num` with equality; `valid` is `validDimension` of graph/elk-layout.ts, and the
-- fallback size of a node that is not measured is a field of the node.
pub mod Limit
pub mod Patches
pub mod Restore
use nodal_studio.Prelude.{
  ℕ, String, Bool, true, false, not, ◌&&◌, ◌||◌, List, [], ◌∷◌, map, Option, none, some, is_some,
  or_else, Eq, ◌==◌, string_eq, option_eq, lookup, keys, of_list, contains, any, all, filter,
  length, ltb, eqb, arith, ◌≡◌, ◌↔◌, if◌then◌else◌, of_pairs,
}
use nodal_studio.Model.{CanvasNodeLayout}

module _ (Num : Type 0) where
  -- The parts of a `TableNode` that the history reads and writes.
  pub record TableNode : Type 0 where
    pub id : String
    pub x : Num
    pub y : Num
    pub width : Option Num
    pub height : Option Num
    pub style_width : Option Num
    pub style_height : Option Num
    pub measured_width : Option Num
    pub measured_height : Option Num
    pub layout_pinned : Bool
    pub draggable : Option Bool
    pub default_width : Num
    pub default_height : Num

  -- The changed properties of one node on one side. `pinned` may change to an absent value.
  pub record GeometryPatch : Type 0 where
    pub x : Option Num
    pub y : Option Num
    pub width : Option Num
    pub height : Option Num
    pub pinned : Option (Option Bool)

  pub record LayoutEdit : Type 0 where
    pub label : String
    pub patches : List (String × (GeometryPatch × GeometryPatch))

  -- Both stacks have their top first.
  pub record DiagramLayoutHistory : Type 0 where
    pub past : List LayoutEdit
    pub future : List LayoutEdit

abbrev pub LayoutFrame : Type 0 → Type 0
LayoutFrame Num = List (String × CanvasNodeLayout Num)

pub data Direction : Type 0 where
  backward forward : Direction

abbrev pub bool_test : Bool → Bool → Bool
bool_test true b = b
bool_test false b = not b

pub bool_test_iff : (a b : Bool) → (bool_test a b ≡ true) ↔ (a ≡ b)
bool_test_iff a b = ground arith

instance abbrev pub bool_eq : Eq Bool
bool_eq = record { agree = bool_test; agree_iff = bool_test_iff }

abbrev changed {ℓ} : {A : Type ℓ} ⦃e : Eq A⦄ → A → A → A → Option A
changed a b value = if a == b then none else some value

abbrev flatten {ℓ} : {A : Type ℓ} → Option (Option A) → Option A
flatten none = none
flatten (some o) = o

-- `if (changed.length) patches.set(id, ...)`
abbrev pub set_patch {ℓ} : {P : Type ℓ} → String → Option P → List (String × P) → List (String × P)
set_patch id none patches = patches
set_patch id (some sides) patches = (id, sides) ∷ patches

module _ {Num : Type 0} ⦃num : Eq Num⦄ where
  abbrev pub cleared : DiagramLayoutHistory Num
  cleared = record { past = []; future = [] }

  -- `nodeDimension`: the measured, the given or the styled size, the first that is valid.
  abbrev pub dimension : (Num → Bool) → Option Num → Option Num → Option Num → Option Num
  dimension valid measured given styled =
      let good : Option Num → Bool = λ o. elim o [ none ↦ false | some n ↦ valid n ] in
      if good measured
      then measured
      else if good given
      then given
      else if good styled
      then styled
      else none

  -- One entry of `captureLayoutFrame`.
  unfoldable pub capture_node : (Num → Bool) → TableNode Num → CanvasNodeLayout Num
  capture_node valid node = record {
    x = node.x;
    y = node.y;
    width = some (
        or_else (dimension valid node.measured_width node.width node.style_width)
          node.default_width);
    height = some (
        or_else (dimension valid node.measured_height node.height node.style_height)
          node.default_height);
    pinned = if node.layout_pinned then some true else none;
  }

  unfoldable pub capture_layout_frame : (Num → Bool) → List (TableNode Num) → LayoutFrame Num
  unfolding capture_node
  capture_layout_frame valid nodes =
      of_pairs (map (λ node. (node.id, capture_node valid node)) nodes)

  -- The patch that restores `value`, over the properties in which `previous` and `next` differ.
  unfoldable pub patch_of :
      CanvasNodeLayout Num → CanvasNodeLayout Num → CanvasNodeLayout Num → GeometryPatch Num
  patch_of previous next value = record {
    x = changed previous.x next.x value.x;
    y = changed previous.y next.y value.y;
    width = flatten (changed previous.width next.width value.width);
    height = flatten (changed previous.height next.height value.height);
    pinned = changed previous.pinned next.pinned value.pinned;
  }

  -- `changed.length === 0`
  unfoldable pub same_layout : CanvasNodeLayout Num → CanvasNodeLayout Num → Bool
  same_layout a b =
      a.x == b.x
      && (a.y == b.y && (a.width == b.width && (a.height == b.height && a.pinned == b.pinned)))

  -- The two sides of an edit of one node: nothing if no property changed.
  unfoldable pub sides_of :
      CanvasNodeLayout Num → CanvasNodeLayout Num → Option (GeometryPatch Num × GeometryPatch Num)
  unfolding patch_of same_layout
  sides_of previous next =
      if same_layout previous next
      then none
      else some (patch_of previous next previous, patch_of previous next next)

  abbrev pub sides_to :
      Option (CanvasNodeLayout Num)
      → CanvasNodeLayout Num
      → Option (GeometryPatch Num × GeometryPatch Num)
  sides_to none previous = none
  sides_to (some next) previous = sides_of previous next

  -- The loop over the entries of the frame before, all of which the other frame has.
  unfoldable pub patches_of :
      LayoutFrame Num → LayoutFrame Num → List (String × (GeometryPatch Num × GeometryPatch Num))
  patches_of [] frame = []
  patches_of ((id, previous) ∷ entries) frame =
      set_patch id (sides_to (lookup id frame) previous) (patches_of entries frame)

  abbrev pub same_keys : LayoutFrame Num → LayoutFrame Num → Bool
  same_keys frame next =
      eqb (length (keys frame)) (length (keys next))
      && all (λ id. is_some (lookup id next)) (keys frame)

  -- `past.push(edit); if (past.length > limit) past.shift()`
  abbrev drop_last : List (LayoutEdit Num) → List (LayoutEdit Num)
  drop_last [] = []
  drop_last (e ∷ []) = []
  drop_last (e ∷ f ∷ es) = e ∷ drop_last (f ∷ es)

  unfoldable pub push_past : ℕ → LayoutEdit Num → List (LayoutEdit Num) → List (LayoutEdit Num)
  push_past limit edit past =
      if ltb limit (length (edit ∷ past)) then drop_last (edit ∷ past) else edit ∷ past

  unfoldable pub record_edit :
      ℕ
      → DiagramLayoutHistory Num
      → LayoutFrame Num
      → LayoutFrame Num
      → String
      → Bool × DiagramLayoutHistory Num
  unfolding patches_of push_past
  record_edit limit h frame next label =
      if not (same_keys frame next) then (false, cleared) else elim (patches_of frame next) [
        | [] ↦ (false, h)
        | p ∷ ps ↦ (
          true,
          record {
            past = push_past limit (record { label = label; patches = p ∷ ps }) h.past;
            future = [];
          },
        )
      ]

  -- `setTablePinned`
  unfoldable pub set_table_pinned : TableNode Num → Bool → TableNode Num
  set_table_pinned node pinned =
      if node.layout_pinned == pinned
      then node
      else record node { draggable = if pinned then some false else none; layout_pinned = pinned }

  abbrev pick : Direction → GeometryPatch Num × GeometryPatch Num → GeometryPatch Num
  pick backward (b, a) = b
  pick forward (b, a) = a

  abbrev keep : Option Num → Option Num → Option Num
  keep none old = old
  keep (some n) old = some n

  unfoldable pub apply_patch : GeometryPatch Num → TableNode Num → TableNode Num
  unfolding set_table_pinned
  apply_patch patch node =
      let pinned : TableNode Num = elim patch.pinned [
        | none ↦ node
        | some p ↦ set_table_pinned node (p == some true)
      ] in
      record node {
        layout_pinned = pinned.layout_pinned;
        draggable = pinned.draggable;
        x = or_else patch.x node.x;
        y = or_else patch.y node.y;
        style_width = keep patch.width node.style_width;
        style_height = keep patch.height node.style_height;
        width = keep patch.width node.width;
        height = keep patch.height node.height;
        measured_width = keep patch.width node.measured_width;
        measured_height = keep patch.height node.measured_height;
      }

  unfoldable pub restore_node : LayoutEdit Num → Direction → TableNode Num → TableNode Num
  unfolding apply_patch
  restore_node edit direction node = elim (lookup node.id edit.patches) [
    | none ↦ node
    | some sides ↦ apply_patch (pick direction sides) node
  ]

  abbrev has_ids : LayoutEdit Num → List (TableNode Num) → Bool
  has_ids edit nodes =
      not (any (λ id. not (contains id (of_list (map (λ n. n.id) nodes)))) (keys edit.patches))

  -- `restore(nodes, "before")`
  unfoldable pub undo :
      DiagramLayoutHistory Num
      → List (TableNode Num)
      → Option (List (TableNode Num) × String) × DiagramLayoutHistory Num
  unfolding restore_node
  undo h nodes = elim h.past [
    | [] ↦ (none, h)
    | edit ∷ past ↦
        if has_ids edit nodes
        then (
          some (map (restore_node edit backward) nodes, edit.label),
          record { past = past; future = edit ∷ h.future },
        )
        else (none, cleared)
  ]

  -- `restore(nodes, "after")`
  unfoldable pub redo :
      DiagramLayoutHistory Num
      → List (TableNode Num)
      → Option (List (TableNode Num) × String) × DiagramLayoutHistory Num
  unfolding restore_node
  redo h nodes = elim h.future [
    | [] ↦ (none, h)
    | edit ∷ future ↦
        if has_ids edit nodes
        then (
          some (map (restore_node edit forward) nodes, edit.label),
          record { past = edit ∷ h.past; future = future },
        )
        else (none, cleared)
  ]
