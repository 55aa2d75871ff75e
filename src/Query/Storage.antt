-- ===== src/Query/Storage.antt =====
-- What the query editor uses of the browser: local storage, `encodeURIComponent` and JSON.
-- The laws state what is documented of them.
use nodal_studio.Prelude.{String, Option, none, some, Attempt, returned, ◌≡◌}
use nodal_studio.Web.Json.{Json, null, text, object, field, no_fields}

pub record Browser (S : Type 0) : Type 0 where
  pub get_item : String → S → Attempt (Option String)
  pub set_item : String → String → S → Option S
  pub remove_item : String → S → Option S
  pub encode : String → String
  pub stringify : Json → String
  -- Text that is no JSON throws.
  pub parse : String → Attempt Json

pub record BrowserLaws {S : Type 0} (browser : Browser S) : Type 0 where
  pub get_set :
      (key value : String) (s t : S)
      → browser.set_item key value s ≡ some t
      → browser.get_item key t ≡ returned (some value)
  pub get_remove :
      (key : String) (s t : S)
      → browser.remove_item key s ≡ some t
      → browser.get_item key t ≡ returned none
  pub parse_null : browser.parse "null" ≡ returned null
  -- An object of one text survives, whatever its key.
  pub parse_stringify :
      (key value : String)
      → browser.parse (browser.stringify (object (field key (text value) no_fields)))
        ≡ returned (object (field key (text value) no_fields))
