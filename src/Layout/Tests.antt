-- ===== src/Layout/Tests.antt =====
-- The theorems of Layout at inputs that meet their hypotheses, and runs of its definitions.
use nodal_studio.Prelude.{
  string_eq, nat_eq, lookup, insert, add, contains, ℕ, String, true, List, [], ◌∷◌, ◌≡◌, ◌↔◌, refl,
  length, map, IsSorted, Bool, false, none, some, ltb, ◌≤◌, Memᴰ, is_set, arith,
}
use nodal_studio.Graph.Links.{join}
use nodal_studio.Model.{CanvasNodeLayout}
use nodal_studio.Layout.History.{
  TableNode, LayoutFrame, DiagramLayoutHistory, capture_layout_frame, capture_node, record_edit,
  undo, redo, same_layout, patches_of, sides_of,
}
use nodal_studio.Layout.History.Restore.{undo-record_edit}
use nodal_studio.Layout.History.Limit.{size, size-history}
use nodal_studio.Layout.Components.{
  LayoutNodeInput, LayoutEdgeInput, by_size, split_layout_components,
}
use nodal_studio.Layout.Components.Connected.{Connected}
use nodal_studio.Layout.Components.Laws.{together, split_layout_components_iff}
use nodal_studio.Layout.Components.Sizes.{total, total-split_layout_components}

abbrev box : String → LayoutNodeInput
box id = record { id = id; width = 280; height = 96 }

abbrev line : String → String → LayoutEdgeInput
line source target = record { id = "e"; source = source; target = target }

abbrev boxes : List LayoutNodeInput
boxes = map box ("a" ∷ "b" ∷ "c" ∷ "d" ∷ [])

abbrev lines : List LayoutEdgeInput
lines = line "b" "c" ∷ line "d" "b" ∷ line "a" "missing" ∷ []

split_run :
    map {B = List String × ℕ}
      (λ c. (map (λ n. n.id) c.nodes, length c.edges))
      (split_layout_components boxes lines)
    ≡ (("b" ∷ "c" ∷ "d" ∷ [], 2) ∷ ("a" ∷ [], 0) ∷ [])
unfolding split_layout_components lookup join insert add contains
split_run = refl

split_layout_components_iff_example :
    (together "c" "d" (split_layout_components boxes lines) ≡ true) ↔ Connected boxes lines "c" "d"
split_layout_components_iff_example = split_layout_components_iff boxes lines "c" "d" refl refl

total-split_layout_components_example :
    (total (split_layout_components boxes lines) ≡ length boxes)
    × IsSorted by_size (split_layout_components boxes lines)
total-split_layout_components_example = total-split_layout_components boxes lines

abbrev table_node : String → ℕ → TableNode ℕ
table_node id x = record {
  id = id;
  x = x;
  y = 10;
  width = none;
  height = none;
  style_width = none;
  style_height = none;
  measured_width = some 300;
  measured_height = some 120;
  layout_pinned = false;
  draggable = none;
  default_width = 280;
  default_height = 96;
}

abbrev positive : ℕ → Bool
positive n = ltb 0 n

abbrev moved : List (TableNode ℕ)
moved = table_node "a" 50 ∷ table_node "b" 400 ∷ []

abbrev home : LayoutFrame ℕ
home = capture_layout_frame positive (table_node "a" 0 ∷ table_node "b" 400 ∷ [])

abbrev fresh : DiagramLayoutHistory ℕ
fresh = record { past = []; future = [] }

abbrev after_move : DiagramLayoutHistory ℕ
after_move = (record_edit 50 fresh home (capture_layout_frame positive moved) "Move").1

undo-record_edit_example :
    (result : List (TableNode ℕ)) × ((undo after_move moved).0 ≡ some (result, "Move"))
    × ((n : TableNode ℕ) (b : CanvasNodeLayout ℕ)
        → Memᴰ n result
        → lookup n.id home ≡ some b
        → capture_node positive n ≡ b)
unfolding record_edit capture_layout_frame lookup is_set same_layout patches_of sides_of insert
undo-record_edit_example =
    undo-record_edit positive 50 fresh home moved "Move" (omega arith) refl refl refl refl

size-history_example :
    (size (record_edit 50 fresh home (capture_layout_frame positive moved) "Move").1 ≤ 50)
    × (size (undo fresh moved).1 ≤ 50)
    × (size (redo fresh moved).1 ≤ 50)
size-history_example =
    size-history 50 fresh home (capture_layout_frame positive moved) "Move" moved (omega arith)
