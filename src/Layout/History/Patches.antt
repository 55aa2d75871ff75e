-- ===== src/Layout/History/Patches.antt =====
-- What the patches of an edit hold, and how a restored node follows from them.
use nodal_studio.Prelude.{
  ℕ, suc, ◌≤◌, String, true, false, not, List, [], ◌∷◌, Option, none, some, ◌≡◌, refl, ◌∙◌, ap,
  arith, Eq, ◌==◌, string_eq, option_eq, option_agree_iff, length, Option-cases, inl, inr,
  Bool-cases, lookup, contains, keys, is_set, ◌⊎◌, is_some, ltb, if◌then◌else◌, any,
}
use nodal_studio.Model.{CanvasNodeLayout}
use nodal_studio.Layout.History.{
  TableNode, GeometryPatch, LayoutEdit, LayoutFrame, Direction, backward, patches_of, sides_of,
  sides_to, set_patch, same_layout, push_past, apply_patch, restore_node, drop_last, bool_eq,
}

module _ {Num : Type 0} ⦃num : Eq Num⦄ where
  -- The fields of a layout determine it.
  pub layout-ext :
      (p q : CanvasNodeLayout Num)
      → p.x ≡ q.x
      → p.y ≡ q.y
      → p.width ≡ q.width
      → p.height ≡ q.height
      → p.pinned ≡ q.pinned
      → p ≡ q
  layout-ext p q a b c d e =
      λ i. record { x = a i; y = b i; width = c i; height = d i; pinned = e i }

  pub lookup-set_patch :
      (id j : String) (o : Option (GeometryPatch Num × GeometryPatch Num))
      (patches : List (String × (GeometryPatch Num × GeometryPatch Num)))
      → lookup id patches ≡ none ⊎ ((j == id) ≡ false)
      → lookup id (set_patch j o patches) ≡ (if j == id then o else lookup id patches)
  unfolding lookup
  lookup-set_patch id j none patches h = ground arith
  lookup-set_patch id j (some p) patches h = ground arith

  pub lookup-patches_of_absent :
      (entries next : LayoutFrame Num) (id : String)
      → contains id (keys entries) ≡ false
      → lookup id (patches_of entries next) ≡ none
  unfolding patches_of contains lookup
  lookup-patches_of_absent [] next id h = refl
  lookup-patches_of_absent ((j, p) ∷ entries) next id h =
      let rest = lookup-patches_of_absent entries next id (ground arith) in
      let other : (j == id) ≡ false = ground arith in
      lookup-set_patch id j (sides_to (lookup j next) p) (patches_of entries next) (inl rest)
      ∙ rw (other, rest) refl

  pub lookup-patches_of :
      (entries next : LayoutFrame Num) (id : String) (b : CanvasNodeLayout Num)
      → is_set (keys entries) ≡ true
      → lookup id entries ≡ some b
      → lookup id (patches_of entries next) ≡ sides_to (lookup id next) b
  unfolding patches_of lookup is_set
  lookup-patches_of [] next id b d e = cc
  lookup-patches_of ((j, p) ∷ entries) next id b d e = elim (Bool-cases (j == id)) [
    | inl k ↦
        let same : j ≡ id = (string_eq.agree_iff j id).0 k in
        let value : p ≡ b = ground arith in
        let rest = lookup-patches_of_absent entries next id (rw (← same) (ground arith)) in
        lookup-set_patch id j (sides_to (lookup j next) p) (patches_of entries next) (inl rest)
        ∙ (rw k (ap (λ x. sides_to (lookup x next) p) same) ∙ ap (sides_to (lookup id next)) value)
    | inr k ↦
        lookup-set_patch id j (sides_to (lookup j next) p) (patches_of entries next) (inr k)
        ∙ (rw k refl ∙ lookup-patches_of entries next id b (ground arith) (ground arith))
  ]

  -- Every patched node is known.
  pub known-patches_of :
      (entries next : LayoutFrame Num) (known : List String)
      → ((id : String) → is_some (lookup id next) ≡ true → contains id known ≡ true)
      → any (λ id. not (contains id known)) (keys (patches_of entries next)) ≡ false
  unfolding patches_of
  known-patches_of [] next known h = refl
  known-patches_of ((j, p) ∷ entries) next known h = elim (Option-cases (lookup j next)) [
    | inl e ↦ rw e (known-patches_of entries next known h)
    | inr (q, e) ↦ elim (Option-cases (sides_of p q)) [
      | inl s ↦ rw (e, s) (known-patches_of entries next known h)
      | inr (sides, s) ↦
          rw (e, s) (ground (arith, h j (rw e refl), known-patches_of entries next known h))
    ]
  ]

  pub push_past-top :
      (limit : ℕ) (e : LayoutEdit Num) (past : List (LayoutEdit Num))
      → 1 ≤ limit
      → (rest : List (LayoutEdit Num)) × (push_past limit e past ≡ e ∷ rest)
  unfolding push_past
  push_past-top limit e [] h = ([], ground arith)
  push_past-top limit e (f ∷ past) h = elim (Bool-cases (ltb limit (suc (suc (length past))))) [
    | inl k ↦ (drop_last (f ∷ past), rw k refl)
    | inr k ↦ (f ∷ past, rw k refl)
  ]

  pub restore_node-none :
      (edit : LayoutEdit Num) (n : TableNode Num)
      → lookup n.id edit.patches ≡ none
      → restore_node edit backward n ≡ n
  unfolding restore_node
  restore_node-none edit n e = rw (e, restore_node) refl

  pub restore_node-some :
      (edit : LayoutEdit Num) (n : TableNode Num) (sides : GeometryPatch Num × GeometryPatch Num)
      → lookup n.id edit.patches ≡ some sides
      → restore_node edit backward n ≡ apply_patch sides.0 n
  unfolding restore_node
  restore_node-some edit n sides e = rw (e, restore_node) refl

  pub id-restore_node :
      (edit : LayoutEdit Num) (d : Direction) (n : TableNode Num)
      → (restore_node edit d n).id ≡ n.id
  unfolding restore_node apply_patch
  id-restore_node edit d n = ground arith

  pub same_layout-eq : (a b : CanvasNodeLayout Num) → same_layout a b ≡ true → a ≡ b
  unfolding same_layout
  same_layout-eq a b h =
      layout-ext a b ((num.agree_iff a.x b.x).0 (ground arith))
        ((num.agree_iff a.y b.y).0 (ground arith))
        ((option_agree_iff a.width b.width).0 (ground arith))
        ((option_agree_iff a.height b.height).0 (ground arith))
        ((option_agree_iff a.pinned b.pinned).0 (ground arith))
