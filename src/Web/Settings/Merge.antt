-- ===== src/Web/Settings/Merge.antt =====
-- What is read after a write: the stored value of each setting, and the default of one that is not stored.
use nodal_studio.Prelude.{
  String, Bool, true, false, List, [], ◌∷◌, none, some, returned, fold, contains, ◌==◌, string_eq,
  ◌≡◌, refl, sym, ◌∙◌, ap, arith, Bool-cases, Option-cases, inl, inr, if◌then◌else◌,
}
use nodal_studio.Web.Json.{
  Json, Fields, object, no_fields, get, set, spread, members, get_in, is_object, get-set,
  get-spread,
}
use nodal_studio.Web.Storage.{Browser, BrowserLaws}
use nodal_studio.Web.Defaults.{default_app_settings}
use nodal_studio.Web.Settings.{
  and_then, store, app_settings_key, legacy_app_settings_key, read_json, over, set_section,
  app_sections, merge_app_settings, read_app_settings, write_app_settings,
}

module _ {S : Type 0} (browser : Browser S) where
  get-sections :
      (names : List String) (defaults : Fields) (stored : Json) (result : Fields) (name : String)
      → get name (fold (set_section browser defaults stored) result names) ≡ (
          if contains name names
          then some (over browser (get name defaults) (get_in name (some stored)))
          else get name result)
  unfolding contains
  get-sections [] defaults stored result name = refl
  get-sections (n ∷ names) defaults stored result name = elim (Bool-cases (n == name)) [
    | inl e ↦
        let section =
          λ (m : String). some (over browser (get m defaults) (get_in m (some stored))) in
        let same : n ≡ name = (string_eq.agree_iff n name).0 e in
        let own : get name (set_section browser defaults stored result n) ≡ section name =
          get-set n name (over browser (get n defaults) (get_in n (some stored))) result
          ∙ (rw e refl ∙ ap section same) in
        ground (
          arith,
          get-sections names defaults stored (set_section browser defaults stored result n) name,
        )
    | inr e ↦ ground (
      arith,
      get-sections names defaults stored (set_section browser defaults stored result n) name,
      get-set n name (over browser (get n defaults) (get_in n (some stored))) result,
    )
  ]

  -- The sections that are merged field by field; shortcuts and advanced have objects of their own inside.
  abbrev pub plain_sections : List String
  plain_sections = "updates" ∷ app_sections

  not_plain :
      (other name : String)
      → contains other plain_sections ≡ false
      → contains name plain_sections ≡ true
      → (other == name) ≡ false
  not_plain other name h k = elim (Bool-cases (other == name)) [
    | inr e ↦ e
    | inl e ↦
        let same : other ≡ name = (string_eq.agree_iff other name).0 e in
        let both : true ≡ false = sym k ∙ (ap (λ n. contains n plain_sections) (sym same) ∙ h) in cc
  ]

  get-outer :
      (advanced bindings : Json) (sections defaults : Fields) (stored : Json) (name : String)
      → ("advanced" == name) ≡ false
      → ("shortcuts" == name) ≡ false
      → get name (
          set "advanced" advanced
            (set_section browser defaults stored (set "shortcuts" bindings sections) "updates"))
        ≡ (if "updates" == name
            then some (over browser (get name defaults) (get_in name (some stored)))
            else get name sections)
  get-outer advanced bindings sections defaults stored name p q =
      let updates = over browser (get "updates" defaults) (get_in "updates" (some stored)) in
      let section = λ (m : String). some (over browser (get m defaults) (get_in m (some stored))) in
      let outer : get name
            (set "advanced" advanced (set "updates" updates (set "shortcuts" bindings sections)))
          ≡ get name (set "updates" updates (set "shortcuts" bindings sections)) =
        get-set "advanced" name advanced (set "updates" updates (set "shortcuts" bindings sections))
        ∙ rw p refl in
      let inner : get name (set "shortcuts" bindings sections) ≡ get name sections =
        get-set "shortcuts" name bindings sections ∙ rw q refl in
      outer
      ∙ (get-set "updates" name updates (set "shortcuts" bindings sections)
          ∙ elim (Bool-cases ("updates" == name)) [
            | inl e ↦ rw e (ap section ((string_eq.agree_iff "updates" name).0 e))
            | inr e ↦ rw e inner
          ])

  plain_value :
      (defaults : Fields) (stored : Json) (base : Fields) (name : String)
      → contains name plain_sections ≡ true
      → (if "updates" == name
          then some (over browser (get name defaults) (get_in name (some stored)))
          else get name (fold (set_section browser defaults stored) base app_sections))
        ≡ some (over browser (get name defaults) (get_in name (some stored)))
  unfolding contains
  plain_value defaults stored base name h = elim (Bool-cases ("updates" == name)) [
    | inl e ↦ rw e refl
    | inr e ↦
        let listed : contains name app_sections ≡ true = rw e at h in
        rw e (get-sections app_sections defaults stored base name ∙ rw listed refl)
  ]

  get-merge_app_settings :
      (defaults : Fields) (stored : Json) (name : String)
      → contains name plain_sections ≡ true
      → get name (merge_app_settings browser defaults stored)
        ≡ some (over browser (get name defaults) (get_in name (some stored)))
  unfolding merge_app_settings contains
  get-merge_app_settings defaults stored name h =
      let base = spread defaults (members browser.indexed (some stored)) in
      let sections = fold (set_section browser defaults stored) base app_sections in
      get-outer _ _ sections defaults stored name (not_plain "advanced" name refl h)
        (not_plain "shortcuts" name refl h)
      ∙ plain_value defaults stored base name h

  read_json-set_item :
      (key : String) (fallback : Json) (settings : Fields) (s t : S)
      → browser.parse (browser.stringify (object settings)) ≡ returned (object settings)
      → browser.get_item key t ≡ some (browser.stringify (object settings))
      → read_json browser key fallback t ≡ object settings
  unfolding read_json
  read_json-set_item key fallback settings s t kept h = rw (h, kept) refl

  module _ (laws : BrowserLaws browser) where
    -- Once settings that JSON keeps have been written, they are read back: in a section other than
    -- shortcuts and advanced that is an object without repeated keys, a field that was stored has its
    -- stored value, any other field its default.
    pub read-write_app_settings :
        (settings section : Fields) (name key : String) (s t : S)
        → browser.parse (browser.stringify (object settings)) ≡ returned (object settings)
        → write_app_settings browser settings s ≡ (true, t)
        → contains name plain_sections ≡ true
        → get name settings ≡ some (object section)
        → is_object section ≡ true
        → get_in key (get name (read_app_settings browser t)) ≡ (elim (get key section) [
          | none ↦ get key (members browser.indexed (get name default_app_settings))
          | some value ↦ some value
        ])
    unfolding read_app_settings write_app_settings
    read-write_app_settings settings section name key s t kept written plain stored unique =
        elim (Option-cases
          (browser.set_item app_settings_key (browser.stringify (object settings)) s)) [
            | inl e ↦
                let failed : (write_app_settings browser settings s).0 ≡ false =
                  rw (e, write_app_settings, and_then, store) refl in
                absurd
                  (let bad : false ≡ true = sym failed ∙ ap (λ (w : Bool × S). w.0) written in cc)
            | inr (u, e) ↦
                let stored_at : (write_app_settings browser settings s).1
                    ≡ browser.remove_item legacy_app_settings_key u =
                  rw (e, write_app_settings, and_then, store) refl in
                let after : browser.remove_item legacy_app_settings_key u ≡ t =
                  sym stored_at ∙ ap (λ (w : Bool × S). w.1) written in
                let found : browser.get_item app_settings_key t
                    ≡ some (browser.stringify (object settings)) =
                  ap (browser.get_item app_settings_key) (sym after)
                  ∙ (laws.get_remove_other legacy_app_settings_key app_settings_key u refl
                      ∙ laws.get_set app_settings_key (browser.stringify (object settings)) s u
                          e) in
                let read : read_json browser app_settings_key
                      (read_json browser legacy_app_settings_key (object no_fields) t) t
                    ≡ object settings =
                  read_json-set_item app_settings_key _ settings s t kept found in
                ap (λ j. get_in key (get name (merge_app_settings browser default_app_settings j)))
                  read
                ∙ (ap (get_in key)
                      (get-merge_app_settings default_app_settings (object settings) name plain)
                    ∙ (ap
                          (λ o. get key (
                            spread (members browser.indexed (get name default_app_settings))
                              (members browser.indexed o)))
                          stored
                        ∙ get-spread key (members browser.indexed (get name default_app_settings))
                            section unique))
          ]
