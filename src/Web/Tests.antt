-- ===== src/Web/Tests.antt =====
-- The theorems of Web at inputs that meet their hypotheses: a browser that keeps its entries in a list and prints one
-- object of settings.
use nodal_studio.Prelude.{
  true, or_else, contains, ◌&&◌, ◌⊎◌, String, false, not, List, [], ◌∷◌, map, filter, none, some,
  thrown, returned, lookup, insert, lookup-insert, agree_refl, ◌==◌, string_eq, ◌≡◌, refl, sym, ap,
  ◌∙◌, arith, contains, if◌then◌else◌, ℕ, length,
}
use nodal_studio.Samples.{snapshot, users}
use nodal_studio.Web.Json.{
  is_object, has_key, Fields, text, object, no_fields, fields_of, get, get_in,
}
use nodal_studio.Web.Storage.{Browser, BrowserLaws}
use nodal_studio.Web.Settings.{read_app_settings, write_app_settings}
use nodal_studio.Web.Settings.Merge.{read-write_app_settings}
use nodal_studio.Web.Platform.{
  World, Surroundings, body, not_ok, handle, is_layout_key, count, clear_layouts,
  load_shared_bundle, get_snapshot, get_semantics, semantics, update_app_settings,
  list_logical_relationships, relationships, snapshot_found, load_bundle,
}
use nodal_studio.Web.Laws.{rejected-handle, storage-handle}
use nodal_studio.Web.Laws.Layouts.{clear_layouts_lem}
use nodal_studio.Web.Laws.Shared.{shared-handle}
use nodal_studio.Model.{CloudViewBundle, SemanticBundle}

abbrev Kept : Type 0
Kept = List (String × String)

remove_entry : String → Kept → Kept
remove_entry key [] = []
remove_entry key ((other, value) ∷ s) =
    if key == other then remove_entry key s else (other, value) ∷ remove_entry key s

lookup-remove_entry :
    (key other : String) (s : Kept)
    → (key == other) ≡ false
    → lookup other (remove_entry key s) ≡ lookup other s
unfolding remove_entry lookup
lookup-remove_entry key other [] h = refl
lookup-remove_entry key other ((name, value) ∷ s) h = ground (
  arith,
  lookup-remove_entry key other s,
  string_eq.agree_iff key name,
  string_eq.agree_iff name other,
  string_eq.agree_iff key other,
)

contains-remove_entry :
    (key other : String) (s : Kept)
    → contains other (map (λ entry. entry.0) (remove_entry key s))
      ≡ (contains other (map (λ entry. entry.0) s) && not (key == other))
unfolding remove_entry contains
contains-remove_entry key other [] = refl
contains-remove_entry key other ((name, value) ∷ s) = ground (
  arith,
  contains-remove_entry key other s,
  string_eq.agree_iff key name,
  string_eq.agree_iff name other,
  string_eq.agree_iff key other,
)

-- Settings that set the theme.
abbrev chosen : Fields
chosen = fields_of (("appearance", object (fields_of (("theme", text "dark") ∷ []))) ∷ [])

abbrev memory : Browser Kept
memory = record {
  get_item = λ key s. lookup key s;
  set_item = λ key value s. some (insert key value s);
  remove_item = λ key s. remove_entry key s;
  keys = λ s. map (λ entry. entry.0) s;
  parse = λ s. if s == "chosen" then returned (object chosen) else thrown "Unexpected token";
  stringify = λ value. "chosen";
  indexed = λ value. no_fields;
  encode = λ s. s;
  quota_error = "QuotaExceededError";
}

some_injective : {a b : Kept} → some a ≡ some b → a ≡ b
some_injective {a} {b} h = cc h

memory_laws : BrowserLaws memory
memory_laws = record {
  get_set = λ key value s t h.
      ap (λ m. lookup key m) (sym (some_injective h))
      ∙ (lookup-insert key key value s ∙ rw (agree_refl key) refl);
  get_remove_other = λ key other s h. lookup-remove_entry key other s h;
  contains-keys_remove = λ key other s. contains-remove_entry key other s;
}

abbrev bundle : CloudViewBundle ℕ
bundle = record {
  project_id = "p";
  source_id = "s";
  source_label = "Shop";
  fingerprint = "f";
  snapshot = some (snapshot "s1" (users ∷ []));
  change_set = none;
  annotations = [];
  domain_groups = [];
  saved_views = [];
  layout = none;
  logical_relationships = none;
  base_version = 1;
}

abbrev around : Surroundings ℕ
around = record {
  share_token = some "token";
  api_base = some "https://api.example/";
  fetch =
      λ url. if url == "https://api.example/v1/view/token" then body (returned bundle) else not_ok;
}

abbrev start : World Kept ℕ
start = record {
  bundle = none;
  storage = ("nodalstudio:layout:a", "1") ∷ ("theme", "2") ∷ ("sqlaieditor:layout:b", "3") ∷ [];
  downloads = [];
}

abbrev section : Fields
section = fields_of (("theme", text "dark") ∷ [])

abbrev written : Kept
written = ("nodalstudio.settings.app.v1", "chosen") ∷ []

read-write_app_settings_example :
    get_in "theme" (get "appearance" (read_app_settings memory written)) ≡ some (text "dark")
unfolding write_app_settings insert remove_entry get contains is_object has_key
read-write_app_settings_example =
    read-write_app_settings memory memory_laws chosen section "appearance" "theme" [] written refl
      refl refl refl refl

-- A browser whose storage is full.
abbrev full : Browser Kept
full = record memory { set_item = λ key value s. none }

rejected-handle_example : (handle full around (update_app_settings chosen) start).1 ≡ start
unfolding handle write_app_settings
rejected-handle_example =
    rejected-handle full around (update_app_settings chosen) "QuotaExceededError" start refl

storage-handle_example : (handle memory around load_shared_bundle start).1.storage ≡ start.storage
storage-handle_example = storage-handle memory around load_shared_bundle start refl

clear_layouts_lem_example :
    ((handle memory around clear_layouts start).0
      ≡ returned (count (length (filter is_layout_key (memory.keys start.storage)))))
    × (contains "theme" (memory.keys (handle memory around clear_layouts start).1.storage)
        ≡ (contains "theme" (memory.keys start.storage) && not (is_layout_key "theme")))
    × ((is_layout_key "theme" ≡ true)
        ⊎ (memory.get_item "theme" (handle memory around clear_layouts start).1.storage
            ≡ memory.get_item "theme" start.storage))
clear_layouts_lem_example = clear_layouts_lem memory around memory_laws "theme" start

shared-handle_example :
    let after = (handle memory around load_shared_bundle start).1 in
    ((handle memory around (get_snapshot "s1") after).0
      ≡ returned (snapshot_found (snapshot "s1" (users ∷ []))))
    × ((shown : SemanticBundle ℕ) × ((handle memory around get_semantics after).0
          ≡ returned (semantics shown))
        × ((handle memory around list_logical_relationships after).0
            ≡ returned (relationships shown.logical_relationships))
        × (shown.annotations ≡ bundle.annotations)
        × (shown.domain_groups ≡ bundle.domain_groups)
        × (shown.saved_views ≡ bundle.saved_views)
        × (shown.layout ≡ bundle.layout)
        × (shown.logical_relationships ≡ or_else bundle.logical_relationships [])
        × (shown.orphaned_annotations ≡ [])
        × (shown.ignored_relationship_inferences ≡ []))
unfolding handle load_bundle
shared-handle_example =
    shared-handle memory around start bundle (snapshot "s1" (users ∷ [])) refl refl
