-- ===== src/Query/Restart.antt =====
-- No update restarts the application while a draft would be lost.
use nodal_studio.Prelude.{
  String, true, false, List, [], ◌∷◌, map, none, some, lookup, insert, lookup-insert, of_list, ◌==◌,
  string_eq, agree_refl, returned, is_returned, ◌≡◌, refl, sym, ◌∙◌, ap, arith, Bool-cases,
  Option-cases, List-cases, inl, inr, contains, contains-of_list,
}
use nodal_studio.Query.Storage.{Browser, BrowserLaws}
use nodal_studio.Query.{
  QuerySession, World, set_update_blocker, assert_update_can_restart, refuse, load_query_session,
  write_draft, save_query_session, restart, draft_key, blocker_id, stored_draft, new_session,
  draft_object,
}
use nodal_studio.Web.Json.{get}

-- A map with an entry blocks the restart.
blocked :
    (blockers : List (String × String)) (id text : String)
    → lookup id blockers ≡ some text
    → is_returned (assert_update_can_restart blockers) ≡ false
unfolding assert_update_can_restart lookup contains
blocked [] id text h = cc
blocked (b ∷ bs) id text h =
    let messages = map (λ c. c.1) (b ∷ bs) in
    elim (List-cases (of_list messages)) [
      | inl e ↦
          let listed : contains b.1 (of_list messages) ≡ true =
            contains-of_list b.1 messages ∙ ground (arith, agree_refl b.1) in
          let absent : contains b.1 (of_list messages) ≡ false = ap (contains b.1) e in cc
      | inr (m, ms, e) ↦ ap (λ l. is_returned (refuse l)) e
    ]

abbrev unsaved : String
unsaved = "save your SQL draft locally (open Query and edit it to retry, or copy and clear it)"

module _ {S : Type 0} (browser : Browser S) (laws : BrowserLaws browser) where
  restored :
      (source_id draft : String) (s t : S)
      → write_draft browser source_id draft s ≡ some t
      → stored_draft browser (browser.get_item (draft_key browser source_id) t) ≡ returned draft
  unfolding write_draft get
  restored source_id draft s t h = elim (Bool-cases (draft == "")) [
    | inl e ↦
        let gone : browser.get_item (draft_key browser source_id) t ≡ returned none =
          laws.get_remove (draft_key browser source_id) s t (rw e at h) in
        rw (gone, laws.parse_null) (ap returned (sym ((string_eq.agree_iff draft "").0 e)))
    | inr e ↦
        let kept : browser.get_item (draft_key browser source_id) t
            ≡ returned (some (browser.stringify (draft_object draft))) =
          laws.get_set (draft_key browser source_id) (browser.stringify (draft_object draft)) s t
            (rw e at h) in
        rw (kept, laws.parse_stringify "draft" draft) refl
  ]

  -- If the update guard lets the application restart after a session was saved, then the session that
  -- is loaded after the restart has the saved draft.
  pub load-restart_save :
      {Result : Type 0} (source_id : String) (session : QuerySession Result) (w : World S Result)
      → is_returned
          (assert_update_can_restart (save_query_session browser source_id session w).blockers)
        ≡ true
      → (load_query_session browser
          (restart (save_query_session browser source_id session w))
          source_id).draft
        ≡ session.draft
  unfolding save_query_session load_query_session lookup set_update_blocker
  load-restart_save {Result} source_id session w h =
      elim (Option-cases (write_draft browser source_id session.draft w.storage)) [
        | inl e ↦
            let blockers : (save_query_session browser source_id session w).blockers
                ≡ insert (blocker_id source_id) unsaved w.blockers =
              rw (e, save_query_session) refl in
            let found : lookup (blocker_id source_id)
                  (save_query_session browser source_id session w).blockers
                ≡ some unsaved =
              ap (lookup (blocker_id source_id)) blockers
              ∙ (lookup-insert (blocker_id source_id) (blocker_id source_id) unsaved w.blockers
                  ∙ rw (agree_refl (blocker_id source_id)) refl) in
            let refused : is_returned (
                  assert_update_can_restart
                    (save_query_session browser source_id session w).blockers)
                ≡ false =
              blocked _ (blocker_id source_id) unsaved found in
            absurd (let both : true ≡ false = sym h ∙ refused in cc)
        | inr (t, e) ↦
            let storage : (save_query_session browser source_id session w).storage ≡ t =
              rw (e, save_query_session) refl in
            let back : stored_draft browser (
                  browser.get_item (draft_key browser source_id)
                    (save_query_session browser source_id session w).storage)
                ≡ returned session.draft =
              ap (λ s. stored_draft browser (browser.get_item (draft_key browser source_id) s))
                storage
              ∙ restored source_id session.draft w.storage t e in
            ap (λ o. (new_session {Result = Result} o).draft) back
      ]
