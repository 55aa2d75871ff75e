-- ===== src/Web/Storage.antt =====
-- What the viewer uses of the browser: local storage, JSON, and the properties of a text or an array that a
-- spread copies. The laws state what is documented of them.
use nodal_studio.Prelude.{
  String, Bool, List, Option, some, Attempt, ◌≡◌, ◌==◌, string_eq, contains, ◌&&◌, not,
}
use nodal_studio.Web.Json.{Json, Fields}

pub record Browser (S : Type 0) : Type 0 where
  pub get_item : String → S → Option String
  -- `none` if it throws, as it does at a full quota.
  pub set_item : String → String → S → Option S
  pub remove_item : String → S → S
  pub keys : S → List String
  pub parse : String → Attempt Json
  pub stringify : Json → String
  pub indexed : Json → Fields
  pub encode : String → String
  -- The message of the error that `set_item` throws.
  pub quota_error : String

pub record BrowserLaws {S : Type 0} (browser : Browser S) : Type 0 where
  pub get_set :
      (key value : String) (s t : S)
      → browser.set_item key value s ≡ some t
      → browser.get_item key t ≡ some value
  pub get_remove_other :
      (key other : String) (s : S)
      → (key == other) ≡ Bool.false
      → browser.get_item other (browser.remove_item key s) ≡ browser.get_item other s
  -- The order of the keys may change.
  pub contains-keys_remove :
      (key other : String) (s : S)
      → contains other (browser.keys (browser.remove_item key s))
        ≡ (contains other (browser.keys s) && not (key == other))
