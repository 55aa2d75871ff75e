-- ===== src/Web/Settings.antt =====
-- platform/web-platform.ts: settings in local storage, read over their defaults section by section.
pub mod Merge
use nodal_studio.Prelude.{
  String, Bool, true, false, if◌then◌else◌, List, [], ◌∷◌, Option, none, some, or_else, Attempt,
  thrown, returned, fold, ◌&◌, ◌==◌, string_eq,
}
use nodal_studio.Web.Json.{
  Json, Fields, null, text, object, no_fields, field, get, set, spread, members, get_in,
}
use nodal_studio.Web.Storage.{Browser}
use nodal_studio.Web.Defaults.{default_app_settings, default_data_source_settings}

abbrev pub app_settings_key : String
app_settings_key = "nodalstudio.settings.app.v1"

abbrev pub legacy_app_settings_key : String
legacy_app_settings_key = "sqlaieditor.settings.app.v1"

abbrev pub source_settings_key : String → String
source_settings_key source_id = "nodalstudio.settings.source." & source_id & ".v1"

abbrev pub legacy_source_settings_key : String → String
legacy_source_settings_key source_id = "sqlaieditor.settings.source." & source_id & ".v1"

-- The value that is read, unless it is null or is no JSON.
abbrev pub parsed_or : Json → Attempt Json → Json
parsed_or fallback (thrown message) = fallback
parsed_or fallback (returned null) = fallback
parsed_or fallback (returned value) = value

abbrev pub source_sections : List String
source_sections = "refresh" ∷ "storage" ∷ "git" ∷ "ai" ∷ "cloud" ∷ []

abbrev pub app_sections : List String
app_sections =
    "general" ∷ "appearance" ∷ "canvas" ∷ "connectionDefaults" ∷ "history" ∷ "privacy"
    ∷ "notifications" ∷ []

-- `settings.sourceId`, which names the entry, beside the other members.
pub record DataSourceSettings : Type 0 where
  pub source_id : String
  pub others : Fields

abbrev pub settings_object : DataSourceSettings → Fields
settings_object settings = set "sourceId" (text settings.source_id) settings.others

module _ {S : Type 0} (browser : Browser S) where
  unfoldable pub read_json : String → Json → S → Json
  read_json key fallback s =
      parsed_or fallback (browser.parse (or_else (browser.get_item key s) "null"))

  -- `{ ...defaults, ...stored }` for the values of one section.
  abbrev pub over : Option Json → Option Json → Json
  over defaults stored =
      object (spread (members browser.indexed defaults) (members browser.indexed stored))

  abbrev pub set_section : Fields → Json → Fields → String → Fields
  set_section defaults stored result name =
      set name (over (get name defaults) (get_in name (some stored))) result

  unfoldable pub merge_app_settings : Fields → Json → Fields
  merge_app_settings defaults stored =
      let sections =
        fold (set_section defaults stored) (spread defaults (members browser.indexed (some stored)))
          app_sections in
      let bindings =
        over (get_in "bindings" (get "shortcuts" defaults))
          (get_in "bindings" (get_in "shortcuts" (some stored))) in
      let advanced =
        spread (members browser.indexed (get "advanced" defaults))
          (members browser.indexed (get_in "advanced" (some stored))) in
      let feature = λ (name : String).
        over (get_in name (get "advanced" defaults))
          (get_in name (get_in "advanced" (some stored))) in
      set "advanced"
        (object (
          set "extensions" (feature "extensions")
            (set "experimentalFeatures" (feature "experimentalFeatures") advanced)))
        (set_section defaults stored
          (set "shortcuts" (object (field "bindings" bindings no_fields)) sections) "updates")

  unfoldable pub read_app_settings : S → Fields
  unfolding read_json
  read_app_settings s =
      merge_app_settings default_app_settings
        (read_json app_settings_key (read_json legacy_app_settings_key (object no_fields) s) s)

  unfoldable pub merge_source_settings : String → Fields → Json → Fields
  merge_source_settings source_id defaults stored =
      fold (set_section defaults stored)
        (set "sourceId" (text source_id) (spread defaults (members browser.indexed (some stored))))
        source_sections

  unfoldable pub read_source_settings : String → S → Fields
  unfolding read_json
  read_source_settings source_id s =
      merge_source_settings source_id (default_data_source_settings source_id) (
        read_json (source_settings_key source_id)
          (read_json (legacy_source_settings_key source_id) (object no_fields) s) s)

  -- Statements that write local storage: whether the last one returned, and the storage they leave. `setItem` that
  -- throws stores nothing.
  abbrev pub store : String → String → S → Bool × S
  store key value s = elim (browser.set_item key value s) [ none ↦ (false, s) | some t ↦ (true, t) ]

  abbrev pub drop : String → S → Bool × S
  drop key s = (true, browser.remove_item key s)

  -- One statement, and the next unless it throws.
  abbrev pub and_then : (S → Bool × S) → (S → Bool × S) → S → Bool × S
  and_then first second s = if (first s).0 then second (first s).1 else first s

  unfoldable pub write_app_settings : Fields → S → Bool × S
  write_app_settings settings =
      and_then (store app_settings_key (browser.stringify (object settings)))
        (drop legacy_app_settings_key)

  unfoldable pub write_source_settings : DataSourceSettings → S → Bool × S
  write_source_settings settings =
      and_then
        (store (source_settings_key settings.source_id)
          (browser.stringify (object (settings_object settings))))
        (drop (legacy_source_settings_key settings.source_id))

  unfoldable pub reset_app_settings : S → Bool × S
  reset_app_settings = store app_settings_key (browser.stringify (object default_app_settings))

  unfoldable pub reset_source_settings : String → S → Bool × S
  reset_source_settings source_id =
      store (source_settings_key source_id)
        (browser.stringify (object (default_data_source_settings source_id)))
