-- ===== src/Web/Laws/Layouts.antt =====
-- platform/web-platform.ts: clearLayouts removes the layouts of this and of the former product name, and nothing else.
use nodal_studio.Prelude.{
  String, true, false, not, ◌&&◌, List, [], ◌∷◌, filter, length, contains, contains-filter,
  string_eq, ◌≡◌, refl, ◌∙◌, ◌⊎◌, Bool-cases, inl, inr, returned, arith,
}
use nodal_studio.Web.Storage.{Browser, BrowserLaws}
use nodal_studio.Web.Platform.{
  World, Surroundings, handle, is_layout_key, layout_keys, remove_keys, clear_layouts, clear, count,
}

module _ {S Num : Type 0} (browser : Browser S) (around : Surroundings Num)
    (laws : BrowserLaws browser) where
  contains-remove_keys :
      (keys : List String) (key : String) (s : S)
      → contains key (browser.keys (remove_keys browser around keys s))
        ≡ (contains key (browser.keys s) && not (contains key keys))
  unfolding remove_keys contains
  contains-remove_keys [] key s = ground arith
  contains-remove_keys (removed ∷ keys) key s = ground (
    arith,
    contains-remove_keys keys key (browser.remove_item removed s),
    laws.contains-keys_remove removed key s,
  )

  get_item-remove_keys :
      (keys : List String) (key : String) (s : S)
      → contains key keys ≡ false
      → browser.get_item key (remove_keys browser around keys s) ≡ browser.get_item key s
  unfolding remove_keys contains
  get_item-remove_keys [] key s h = refl
  get_item-remove_keys (removed ∷ keys) key s h =
      get_item-remove_keys keys key (browser.remove_item removed s) (ground arith)
      ∙ laws.get_remove_other removed key s (ground arith)

  -- After clearLayouts no key of a layout is left, every other key that was there is there with its value, no key is new,
  -- and the answer is the number of keys of layouts.
  pub clear_layouts_lem :
      (key : String) (w : World S Num)
      → ((handle browser around clear_layouts w).0
          ≡ returned (count (length (filter is_layout_key (browser.keys w.storage)))))
        × (contains key (browser.keys (handle browser around clear_layouts w).1.storage)
            ≡ (contains key (browser.keys w.storage) && not (is_layout_key key)))
        × ((is_layout_key key ≡ true)
            ⊎ (browser.get_item key (handle browser around clear_layouts w).1.storage
                ≡ browser.get_item key w.storage))
  unfolding handle clear
  clear_layouts_lem key w =
      let layouts = layout_keys browser around w.storage in
      let listed = contains-filter is_layout_key key (browser.keys w.storage) in
      (
        refl,
        contains-remove_keys layouts key w.storage ∙ ground (arith, listed),
        elim (Bool-cases (is_layout_key key)) [
          | inl e ↦ inl e
          | inr e ↦ inr (get_item-remove_keys layouts key w.storage (listed ∙ ground arith))
        ],
      )
