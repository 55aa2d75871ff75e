-- ===== src/Query.antt =====
-- components/query/query-state.ts and platform/update-guard.ts: the drafts of the query editor, and
-- the work that must be handled before an update restarts the application.
pub mod Storage
pub mod Restart
mod Tests
use nodal_studio.Prelude.{
  ℕ, ◌+◌, ◌-◌, min, max, String, Bool, true, false, not, List, [], ◌∷◌, map, Option, none, some,
  lookup, insert, remove, of_list, if◌then◌else◌, ◌==◌, ◌&◌, string_eq, Attempt, thrown, returned,
  join, or_else,
}
use nodal_studio.Web.Json.{Json, text, object, field, no_fields, get}
use nodal_studio.Query.Storage.{Browser}

pub data QueryTab : Type 0 where
  results message history : QueryTab

pub data Outcome : Type 0 where
  succeeded failed : Outcome

-- `Result` is the type of results, which the session only keeps.
pub record QuerySession (Result : Type 0) : Type 0 where
  pub draft : String
  pub result : Option Result
  pub message_text : String
  pub active_tab : QueryTab
  pub row_limit : ℕ
  pub result_height : ℕ
  pub output_collapsed : Bool
  pub output_resized : Option Bool
  pub outcome : Option Outcome

-- `Math.max(120, Math.min(650, startHeight + startY - currentY))`; a difference below 0 is below 120.
unfoldable pub resized_query_result_height : ℕ → ℕ → ℕ → ℕ
resized_query_result_height start_height start_y current_y =
    max 120 (min 650 (start_height + start_y - current_y))

-- `setUpdateBlocker`
unfoldable pub set_update_blocker :
    String → Option String → List (String × String) → List (String × String)
set_update_blocker id none blockers = remove id blockers
set_update_blocker id (some cause) blockers =
    if cause == "" then remove id blockers else insert id cause blockers

-- `if (messages.length) throw ...`
abbrev pub refuse : List String → Attempt (Unit {0})
refuse [] = returned tt
refuse (m ∷ ms) = thrown ("Before installing: " & join "; " (m ∷ ms) & ".")

-- `assertUpdateCanRestart`
unfoldable pub assert_update_can_restart : List (String × String) → Attempt (Unit {0})
assert_update_can_restart blockers = refuse (of_list (map (λ b. b.1) blockers))

-- The module's `sessions`, the local storage, and the update guard's `blockers`.
pub record World (S Result : Type 0) : Type 0 where
  pub sessions : List (String × QuerySession Result)
  pub storage : S
  pub blockers : List (String × String)

abbrev pub blocker_id : String → String
blocker_id source_id = "query-draft:" & source_id

-- `typeof stored.draft === "string"`
abbrev pub draft_value : Option Json → String
draft_value (some (text draft)) = draft
draft_value other = ""

-- The draft of a stored value: that of an object whose `draft` is a text, else the empty one.
abbrev pub draft_of : Json → String
draft_of (object fields) = draft_value (get "draft" fields)
draft_of other = ""

-- `{ draft: session.draft }`
abbrev pub draft_object : String → Json
draft_object draft = object (field "draft" (text draft) no_fields)

abbrev pub parsed : Attempt Json → Attempt String
parsed (thrown m) = thrown m
parsed (returned stored) = returned (draft_of stored)

abbrev pub new_session : {Result : Type 0} → Attempt String → QuerySession Result
new_session o = elim o [
  | thrown m ↦ record {
    draft = "";
    result = none;
    message_text = "The saved SQL draft could not be restored from local storage.";
    active_tab = message;
    row_limit = 100;
    result_height = 310;
    output_collapsed = false;
    output_resized = none;
    outcome = none;
  }
  | returned draft ↦ record {
    draft = draft;
    result = none;
    message_text = "Ready. Only one read-only SELECT statement can be executed.";
    active_tab = results;
    row_limit = 100;
    result_height = 310;
    output_collapsed = false;
    output_resized = none;
    outcome = none;
  }
]

-- A restart of the application loses what is not in the local storage.
abbrev pub restart : {S Result : Type 0} → World S Result → World S Result
restart w = record { sessions = []; storage = w.storage; blockers = [] }

module _ {S : Type 0} (browser : Browser S) where
  abbrev pub draft_key : String → String
  draft_key workspace = "nodalstudio.query-draft.v1:" & browser.encode workspace

  -- `JSON.parse(localStorage.getItem(...) ?? "null")`, as far as the draft.
  abbrev pub stored_draft : Attempt (Option String) → Attempt String
  stored_draft (thrown m) = thrown m
  stored_draft (returned stored) = parsed (browser.parse (or_else stored "null"))

  unfoldable pub load_query_session :
      {Result : Type 0} → World S Result → String → QuerySession Result
  load_query_session w source_id = elim (lookup source_id w.sessions) [
    | some existing ↦ existing
    | none ↦ new_session (stored_draft (browser.get_item (draft_key source_id) w.storage))
  ]

  -- `setItem` for a draft that is not empty, else `removeItem`; `none` if it throws.
  unfoldable pub write_draft : String → String → S → Option S
  write_draft source_id draft s =
      if draft == ""
      then browser.remove_item (draft_key source_id) s
      else browser.set_item (draft_key source_id) (browser.stringify (draft_object draft)) s

  unfoldable pub save_query_session :
      {Result : Type 0} → String → QuerySession Result → World S Result → World S Result
  unfolding write_draft set_update_blocker
  save_query_session source_id session w =
      let sessions = insert source_id session w.sessions in
      elim (write_draft source_id session.draft w.storage) [
        | some s ↦ record {
          sessions = sessions;
          storage = s;
          blockers = set_update_blocker (blocker_id source_id) none w.blockers;
        }
        | none ↦ record {
          sessions = sessions;
          storage = w.storage;
          blockers =
              set_update_blocker (blocker_id source_id)
                (some
                  "save your SQL draft locally (open Query and edit it to retry, or copy and clear it)")
                w.blockers;
        }
      ]
