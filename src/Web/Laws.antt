-- ===== src/Web/Laws.antt =====
-- platform/web-platform.ts: what the viewer's requests leave as it was.
pub mod Layouts
pub mod Shared
use nodal_studio.Prelude.{
  String, Bool, true, false, Option, none, some, or_else, Attempt, thrown, returned, ◌≡◌, refl, sym,
  ap, ◌∙◌, if◌then◌else◌, Bool-cases, Option-cases, inl, inr,
}
use nodal_studio.Web.Storage.{Browser}
use nodal_studio.Web.Platform.{
  World, Surroundings, Reply, Response, failed, not_ok, body, Request, handle, answered, load_body,
  load_bundle, after_write, is_truthy, view_url, review, sources, queries, authoring, workspace,
  policies, credentials, administration, save_schema_report, save_diagram_export, svg, png,
  get_snapshot, get_semantics, list_logical_relationships, load_shared_bundle, get_settings,
  update_app_settings, update_data_source_settings, reset_app, reset_data_source, clear_layouts,
  get_security_status, download_file, clear,
}
use nodal_studio.Web.Settings.{
  write_app_settings, write_source_settings, reset_app_settings, reset_source_settings, store, drop,
  and_then,
}
use nodal_studio.Web.Requests.{
  Answer, respond_review, respond_source, respond_query, respond_authoring, respond_workspace,
  respond_policy, respond_credential, respond_admin,
}

-- The requests that write local storage.
abbrev pub writes_storage : Request → Bool
writes_storage (update_app_settings value) = true
writes_storage (update_data_source_settings value) = true
writes_storage reset_app = true
writes_storage (reset_data_source source_id) = true
writes_storage clear_layouts = true
writes_storage other = false

abbrev is_thrown {ℓ} : {A : Type ℓ} → Attempt A → Bool
is_thrown (thrown message) = true
is_thrown (returned a) = false

thrown_not_returned {ℓ κ} :
    {A : Type ℓ} {B : Type κ} {m : String} {a : A} → returned a ≡ thrown m → B
thrown_not_returned h = absurd (let bad : false ≡ true = ap is_thrown h in cc)

module _ {S Num : Type 0} (browser : Browser S) (around : Surroundings Num) where
  -- A step that is rejected changes nothing.
  abbrev IsAtomic : Attempt (Reply Num) × World S Num → World S Num → Type 0
  IsAtomic after w = (message : String) → after.0 ≡ thrown message → after.1 ≡ w

  answered-IsAtomic :
      (answer : Attempt Answer) (w : World S Num) → IsAtomic (answered browser around answer w) w
  answered-IsAtomic (thrown m) w message h = refl
  answered-IsAtomic (returned answer) w message h = refl

  load_body-IsAtomic :
      (response : Response Num) (w : World S Num) → IsAtomic (load_body browser around response w) w
  load_body-IsAtomic (failed m) w message h = refl
  load_body-IsAtomic not_ok w message h = refl
  load_body-IsAtomic (body (thrown m)) w message h = refl
  load_body-IsAtomic (body (returned bundle)) w message h = thrown_not_returned h

  load_bundle-IsAtomic : (w : World S Num) → IsAtomic (load_bundle browser around w) w
  unfolding load_bundle
  load_bundle-IsAtomic w message h = elim (Bool-cases (is_truthy around.share_token)) [
    | inr p ↦ rw p refl
    | inl p ↦ elim (Bool-cases (is_truthy around.api_base)) [
      | inr q ↦ rw (p, q) refl
      | inl q ↦
          let response = around.fetch (
            view_url browser around (or_else around.api_base "") (or_else around.share_token "")) in
          rw (p, q) (load_body-IsAtomic response w message (rw (p, q) at h))
    ]
  ]

  -- Statements that throw leave local storage as it was before them.
  abbrev IsUndone : (S → Bool × S) → Type 0
  IsUndone step = (s : S) → (step s).0 ≡ false → (step s).1 ≡ s

  store-IsUndone : (key value : String) → IsUndone (store browser key value)
  store-IsUndone key value s h = elim (Option-cases (browser.set_item key value s)) [
    | inl e ↦ rw (e, store) refl
    | inr (t, e) ↦ absurd (let bad : true ≡ false = rw (e, store) at h in cc)
  ]

  -- A removal after a `setItem` that returned does not throw.
  store_then_drop-IsUndone :
      (key value other : String)
      → IsUndone (and_then browser (store browser key value) (drop browser other))
  store_then_drop-IsUndone key value other s h =
      elim (Option-cases (browser.set_item key value s)) [
        | inl e ↦ rw (e, and_then, store) refl
        | inr (t, e) ↦ absurd (let bad : true ≡ false = rw (e, and_then, store) at h in cc)
      ]

  after_write-IsAtomic :
      (written : Bool × S) (source_id : Option String) (w : World S Num)
      → (written.0 ≡ false → written.1 ≡ w.storage)
      → IsAtomic (after_write browser around written source_id w) w
  after_write-IsAtomic (false, t) source_id w kept message h =
      ap (λ t. record { bundle = w.bundle; storage = t; downloads = w.downloads }) (kept refl)
  after_write-IsAtomic (true, t) source_id w kept message h = thrown_not_returned h

  -- A request that is rejected leaves the bundle, the local storage and the downloads as they were.
  pub rejected-handle :
      (request : Request) (message : String) (w : World S Num)
      → (handle browser around request w).0 ≡ thrown message
      → (handle browser around request w).1 ≡ w
  unfolding handle download_file clear write_app_settings write_source_settings reset_app_settings
      reset_source_settings
  rejected-handle (review r) message w h = answered-IsAtomic (respond_review r) w message h
  rejected-handle (sources r) message w h = answered-IsAtomic (respond_source r) w message h
  rejected-handle (queries r) message w h = answered-IsAtomic (respond_query r) w message h
  rejected-handle (authoring r) message w h = answered-IsAtomic (respond_authoring r) w message h
  rejected-handle (workspace r) message w h = answered-IsAtomic (respond_workspace r) w message h
  rejected-handle (policies r) message w h = answered-IsAtomic (respond_policy r) w message h
  rejected-handle (credentials r) message w h = answered-IsAtomic (respond_credential r) w message h
  rejected-handle (administration r) message w h = answered-IsAtomic (respond_admin r) w message h
  rejected-handle (save_schema_report file_name content) message w h = thrown_not_returned h
  rejected-handle (save_diagram_export svg content file_name) message w h = thrown_not_returned h
  rejected-handle (save_diagram_export png content file_name) message w h = thrown_not_returned h
  rejected-handle load_shared_bundle message w h = load_bundle-IsAtomic w message h
  rejected-handle (update_app_settings value) message w h =
      after_write-IsAtomic (write_app_settings browser value w.storage) none w
        (store_then_drop-IsUndone _ _ _ w.storage) message h
  rejected-handle (update_data_source_settings value) message w h =
      after_write-IsAtomic (write_source_settings browser value w.storage) (some value.source_id) w
        (store_then_drop-IsUndone _ _ _ w.storage) message h
  rejected-handle reset_app message w h =
      after_write-IsAtomic (reset_app_settings browser w.storage) none w
        (store-IsUndone _ _ w.storage) message h
  rejected-handle (reset_data_source source_id) message w h =
      after_write-IsAtomic (reset_source_settings browser source_id w.storage) (some source_id) w
        (store-IsUndone _ _ w.storage) message h
  rejected-handle clear_layouts message w h = thrown_not_returned h
  rejected-handle (get_snapshot id) message w h = refl
  rejected-handle get_semantics message w h = refl
  rejected-handle list_logical_relationships message w h = refl
  rejected-handle (get_settings source_id) message w h = refl
  rejected-handle get_security_status message w h = refl

  answered-same :
      (answer : Attempt Answer) (w : World S Num) → (answered browser around answer w).1 ≡ w
  answered-same (thrown m) w = refl
  answered-same (returned answer) w = refl

  load_body-storage :
      (response : Response Num) (w : World S Num)
      → (load_body browser around response w).1.storage ≡ w.storage
  load_body-storage (failed m) w = refl
  load_body-storage not_ok w = refl
  load_body-storage (body (thrown m)) w = refl
  load_body-storage (body (returned bundle)) w = refl

  load_bundle-storage : (w : World S Num) → (load_bundle browser around w).1.storage ≡ w.storage
  unfolding load_bundle
  load_bundle-storage w = elim (Bool-cases (is_truthy around.share_token)) [
    | inr p ↦ rw p refl
    | inl p ↦ elim (Bool-cases (is_truthy around.api_base)) [
      | inr q ↦ rw (p, q) refl
      | inl q ↦
          let response = around.fetch (
            view_url browser around (or_else around.api_base "") (or_else around.share_token "")) in
          rw (p, q) (load_body-storage response w)
    ]
  ]

  -- The viewer does not write what it shows: only the requests on settings and layouts change local storage.
  pub storage-handle :
      (request : Request) (w : World S Num)
      → writes_storage request ≡ false
      → (handle browser around request w).1.storage ≡ w.storage
  unfolding handle download_file
  storage-handle (review r) w h = ap (λ v. v.storage) (answered-same (respond_review r) w)
  storage-handle (sources r) w h = ap (λ v. v.storage) (answered-same (respond_source r) w)
  storage-handle (queries r) w h = ap (λ v. v.storage) (answered-same (respond_query r) w)
  storage-handle (authoring r) w h = ap (λ v. v.storage) (answered-same (respond_authoring r) w)
  storage-handle (workspace r) w h = ap (λ v. v.storage) (answered-same (respond_workspace r) w)
  storage-handle (policies r) w h = ap (λ v. v.storage) (answered-same (respond_policy r) w)
  storage-handle (credentials r) w h = ap (λ v. v.storage) (answered-same (respond_credential r) w)
  storage-handle (administration r) w h = ap (λ v. v.storage) (answered-same (respond_admin r) w)
  storage-handle (save_schema_report file_name content) w h = refl
  storage-handle (save_diagram_export svg content file_name) w h = refl
  storage-handle (save_diagram_export png content file_name) w h = refl
  storage-handle load_shared_bundle w h = load_bundle-storage w
  storage-handle (update_app_settings value) w h = absurd (cc h)
  storage-handle (update_data_source_settings value) w h = absurd (cc h)
  storage-handle reset_app w h = absurd (cc h)
  storage-handle (reset_data_source source_id) w h = absurd (cc h)
  storage-handle clear_layouts w h = absurd (cc h)
  storage-handle (get_snapshot id) w h = refl
  storage-handle get_semantics w h = refl
  storage-handle list_logical_relationships w h = refl
  storage-handle (get_settings source_id) w h = refl
  storage-handle get_security_status w h = refl
