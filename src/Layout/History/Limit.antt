-- ===== src/Layout/History/Limit.antt =====
-- The history keeps no more edits than its limit.
use nodal_studio.Prelude.{
  ℕ, ◌+◌, ◌≤◌, String, List, [], ◌∷◌, ◌≡◌, refl, arith, Eq, length, List-cases, inl, inr,
  Bool-cases,
}
use nodal_studio.Layout.History.{
  TableNode, LayoutEdit, DiagramLayoutHistory, LayoutFrame, same_keys, patches_of, drop_last,
  push_past, record_edit, undo, redo,
}

module _ {Num : Type 0} ⦃num : Eq Num⦄ where
  -- The edits on both stacks.
  abbrev pub size : DiagramLayoutHistory Num → ℕ
  size h = length h.past + length h.future

  length-drop_last :
      (e : LayoutEdit Num) (es : List (LayoutEdit Num)) → length (drop_last (e ∷ es)) ≡ length es
  length-drop_last e [] = refl
  length-drop_last e (f ∷ es) = omega (arith, length-drop_last f es)

  length-push_past :
      (limit : ℕ) (e : LayoutEdit Num) (past : List (LayoutEdit Num))
      → length past ≤ limit
      → length (push_past limit e past) ≤ limit
  unfolding push_past
  length-push_past limit e past h = ground (arith, length-drop_last e past)

  size-record_edit :
      (limit : ℕ) (h : DiagramLayoutHistory Num) (frame next : LayoutFrame Num) (label : String)
      → size h ≤ limit
      → size (record_edit limit h frame next label).1 ≤ limit
  unfolding record_edit
  size-record_edit limit h frame next label k = elim (Bool-cases (same_keys frame next)) [
    | inr e ↦ rw e (omega arith)
    | inl e ↦ elim (List-cases (patches_of frame next)) [
      | inl p ↦ rw (e, p) k
      | inr (q, qs, p) ↦
          rw (e, p)
            (omega (
              arith,
              k,
              length-push_past limit (record { label = label; patches = q ∷ qs }) h.past
                  (omega arith),
            ))
    ]
  ]

  size-undo :
      (h : DiagramLayoutHistory Num) (nodes : List (TableNode Num)) → size (undo h nodes).1 ≤ size h
  unfolding undo
  size-undo h nodes = ground arith

  size-redo :
      (h : DiagramLayoutHistory Num) (nodes : List (TableNode Num)) → size (redo h nodes).1 ≤ size h
  unfolding redo
  size-redo h nodes = ground arith

  -- If the stacks of a history hold no more edits together than its limit, then they do so after a
  -- recording, after an undo and after a redo, whatever these return.
  pub size-history :
      (limit : ℕ) (h : DiagramLayoutHistory Num) (frame next : LayoutFrame Num) (label : String)
      (nodes : List (TableNode Num))
      → size h ≤ limit
      → (size (record_edit limit h frame next label).1 ≤ limit)
        × (size (undo h nodes).1 ≤ limit)
        × (size (redo h nodes).1 ≤ limit)
  size-history limit h frame next label nodes k = (
    size-record_edit limit h frame next label k,
    omega (arith, size-undo h nodes),
    omega (arith, size-redo h nodes),
  )
