-- ===== src/Web/Platform.antt =====
-- platform/web-platform.ts: the state of the viewer (the shared bundle, local storage, the files that it
-- offers for download) and the requests that read or change it. Each request is one step; the answer of the
-- network is a parameter.
use nodal_studio.Prelude.{
  ℕ, String, Bool, true, false, List, [], ◌∷◌, ◌++◌, map, length, filter, Option, none, some,
  or_else, Attempt, thrown, returned, ◌&◌, ◌==◌, string_eq, ◌||◌, ◌%◌, ◌^◌, if◌then◌else◌,
  ends_with, drop_end, starts_with,
}
use nodal_studio.Model.{DatabaseSnapshot, LogicalRelationship, SemanticBundle, CloudViewBundle}
use nodal_studio.Web.Json.{Json, Fields, boolean, number, fields_of, get, get_in}
use nodal_studio.Web.Storage.{Browser}
use nodal_studio.Web.Settings.{
  DataSourceSettings, read_app_settings, read_source_settings, write_app_settings,
  write_source_settings, reset_app_settings, reset_source_settings,
}
use nodal_studio.Web.Requests.{
  Answer, ReviewRequest, respond_review, SourceRequest, respond_source, QueryRequest, respond_query,
  AuthoringRequest, respond_authoring, WorkspaceRequest, respond_workspace, PolicyRequest,
  respond_policy, CredentialRequest, respond_credential, AdminRequest, respond_admin,
}

pub data Content : Type 0 where
  html : String → Content
  bytes : List ℕ → Content

pub record Download : Type 0 where
  pub content : Content
  pub mime : String
  pub file_name : String

pub data DiagramFormat : Type 0 where
  svg png : DiagramFormat

pub record World (S Num : Type 0) : Type 0 where
  pub bundle : Option (CloudViewBundle Num)
  pub storage : S
  pub downloads : List Download

-- `project` is null and `managed` is empty.
pub record EffectiveSettings : Type 0 where
  pub app : Fields
  pub source : Option Fields

-- `offline_mode` is missing if the stored section has another value in its place.
pub record SecurityStatus : Type 0 where
  pub offline_mode : Option Json
  pub others : Fields

pub data Reply (Num : Type 0) : Type 0 where
  plain : Answer → Reply Num
  receipt : Option String → Reply Num
  snapshot_found : DatabaseSnapshot → Reply Num
  semantics : SemanticBundle Num → Reply Num
  relationships : List LogicalRelationship → Reply Num
  shared : Option (CloudViewBundle Num) → Reply Num
  settings : EffectiveSettings → Reply Num
  count : ℕ → Reply Num
  security : SecurityStatus → Reply Num

-- What comes back for a URL: a request that fails, a response that is not ok, or one whose body is read.
pub data Response (Num : Type 0) : Type 0 where
  failed : String → Response Num
  not_ok : Response Num
  body : Attempt (CloudViewBundle Num) → Response Num

-- The page's `share` parameter, the configured URL of the API, and the network.
pub record Surroundings (Num : Type 0) : Type 0 where
  pub share_token : Option String
  pub api_base : Option String
  pub fetch : String → Response Num

pub data Request : Type 0 where
  review : ReviewRequest → Request
  sources : SourceRequest → Request
  queries : QueryRequest → Request
  authoring : AuthoringRequest → Request
  workspace : WorkspaceRequest → Request
  policies : PolicyRequest → Request
  credentials : CredentialRequest → Request
  administration : AdminRequest → Request
  save_schema_report : String → String → Request
  save_diagram_export : DiagramFormat → List ℕ → String → Request
  get_snapshot : String → Request
  get_semantics list_logical_relationships load_shared_bundle : Request
  get_settings : Option String → Request
  update_app_settings : Fields → Request
  update_data_source_settings : DataSourceSettings → Request
  reset_app : Request
  reset_data_source : String → Request
  clear_layouts get_security_status : Request

abbrev pub is_truthy : Option String → Bool
is_truthy none = false
is_truthy (some s) = if s == "" then false else true

unfoldable pub strip_slash : String → String
unfolding ends_with drop_end
strip_slash s = if ends_with "/" s then drop_end 1 s else s

unfoldable pub is_layout_key : String → Bool
unfolding starts_with
is_layout_key key = starts_with "nodalstudio:layout:" key || starts_with "sqlaieditor:layout:" key

unfoldable pub semantics_of : {Num : Type 0} → Option (CloudViewBundle Num) → SemanticBundle Num
semantics_of none = record {
  annotations = [];
  orphaned_annotations = [];
  view_layouts = none;
  domain_groups = [];
  saved_views = [];
  layout = none;
  logical_relationships = [];
  ignored_relationship_inferences = [];
}
semantics_of (some bundle) = record {
  annotations = bundle.annotations;
  orphaned_annotations = [];
  view_layouts = none;
  domain_groups = bundle.domain_groups;
  saved_views = bundle.saved_views;
  layout = bundle.layout;
  logical_relationships = or_else bundle.logical_relationships [];
  ignored_relationship_inferences = [];
}

unfoldable pub shared_relationships :
    {Num : Type 0} → Option (CloudViewBundle Num) → List LogicalRelationship
shared_relationships none = []
shared_relationships (some bundle) = or_else bundle.logical_relationships []

-- `downloadFile`: the link is clicked once, and the receipt has no path.
unfoldable pub download_file :
    {S Num : Type 0} → Content → String → String → World S Num → Attempt (Reply Num) × World S Num
download_file content mime file_name w = (
  returned (receipt none),
  record {
    bundle = w.bundle;
    storage = w.storage;
    downloads =
        w.downloads ++ record { content = content; mime = mime; file_name = file_name } ∷ [];
  },
)

module _ {S Num : Type 0} (browser : Browser S) (around : Surroundings Num) where
  unfoldable pub find_snapshot : String → Option (CloudViewBundle Num) → Attempt (Reply Num)
  find_snapshot id none = thrown "Snapshot is not available in this shared view."
  find_snapshot id (some bundle) = elim bundle.snapshot [
    | none ↦ thrown "Snapshot is not available in this shared view."
    | some snapshot ↦
        if snapshot.id == id
        then returned (snapshot_found snapshot)
        else thrown "Snapshot is not available in this shared view."
  ]

  abbrev pub view_url : String → String → String
  view_url base token = strip_slash base & "/v1/view/" & browser.encode token

  abbrev pub load_body : Response Num → World S Num → Attempt (Reply Num) × World S Num
  load_body (failed message) w = (thrown message, w)
  load_body not_ok w = (thrown "Shared project could not be loaded.", w)
  load_body (body (thrown message)) w = (thrown message, w)
  load_body (body (returned bundle)) w = (
    returned (shared (some bundle)),
    record { bundle = some bundle; storage = w.storage; downloads = w.downloads },
  )

  unfoldable pub load_bundle : World S Num → Attempt (Reply Num) × World S Num
  unfolding strip_slash
  load_bundle w =
      if is_truthy around.share_token
      then if is_truthy around.api_base
        then load_body
            (around.fetch (view_url (or_else around.api_base "") (or_else around.share_token ""))) w
        else (returned (shared none), w)
      else (returned (shared none), w)

  unfoldable pub effective_settings : Option String → S → EffectiveSettings
  effective_settings source_id s = record {
    app = read_app_settings browser s;
    source =
        if is_truthy source_id
        then some (read_source_settings browser (or_else source_id "") s)
        else none;
  }

  -- A write to local storage, then the settings as they are read again. A statement that throws keeps what those
  -- before it stored.
  abbrev pub after_write :
      Bool × S → Option String → World S Num → Attempt (Reply Num) × World S Num
  after_write (false, t) source_id w = (
    thrown browser.quota_error,
    record { bundle = w.bundle; storage = t; downloads = w.downloads },
  )
  after_write (true, t) source_id w = (
    returned (settings (effective_settings source_id t)),
    record { bundle = w.bundle; storage = t; downloads = w.downloads },
  )

  abbrev pub layout_keys : S → List String
  layout_keys s = filter is_layout_key (browser.keys s)

  unfoldable pub remove_keys : List String → S → S
  remove_keys [] s = s
  remove_keys (key ∷ keys) s = remove_keys keys (browser.remove_item key s)

  unfoldable pub clear : World S Num → Attempt (Reply Num) × World S Num
  clear w = (
    returned (count (length (layout_keys w.storage))),
    record {
      bundle = w.bundle;
      storage = remove_keys (layout_keys w.storage) w.storage;
      downloads = w.downloads;
    },
  )

  unfoldable pub security_status : S → SecurityStatus
  security_status s = record {
    offline_mode = get_in "offlineMode" (get "privacy" (read_app_settings browser s));
    others = fields_of (
        ("databaseCredentialConfigured", boolean false)
        ∷ ("aiCredentialConfigured", boolean false)
        ∷ ("cloudCredentialConfigured", boolean false)
        ∷ ("weakSslSources", number "0")
        ∷ ("failedOrConflictedSyncItems", number "0")
        ∷ ("staleModelSources", number "0")
        ∷ ("unresolvedGitConflictReports", number "0")
        ∷ []);
  }

  abbrev pub answered : Attempt Answer → World S Num → Attempt (Reply Num) × World S Num
  answered (thrown message) w = (thrown message, w)
  answered (returned answer) w = (returned (plain answer), w)

  unfoldable pub handle : Request → World S Num → Attempt (Reply Num) × World S Num
  unfolding download_file find_snapshot load_bundle clear
  handle (review r) w = answered (respond_review r) w
  handle (sources r) w = answered (respond_source r) w
  handle (queries r) w = answered (respond_query r) w
  handle (authoring r) w = answered (respond_authoring r) w
  handle (workspace r) w = answered (respond_workspace r) w
  handle (policies r) w = answered (respond_policy r) w
  handle (credentials r) w = answered (respond_credential r) w
  handle (administration r) w = answered (respond_admin r) w
  handle (save_schema_report file_name text) w =
      download_file (html text) "text/html;charset=utf-8" file_name w
  handle (save_diagram_export svg data_bytes file_name) w =
      download_file (bytes (map (λ n. n % 2 ^ 8) data_bytes)) "image/svg+xml" file_name w
  handle (save_diagram_export png data_bytes file_name) w =
      download_file (bytes (map (λ n. n % 2 ^ 8) data_bytes)) "image/png" file_name w
  handle (get_snapshot id) w = (find_snapshot id w.bundle, w)
  handle get_semantics w = (returned (semantics (semantics_of w.bundle)), w)
  handle list_logical_relationships w =
      (returned (relationships (shared_relationships w.bundle)), w)
  handle load_shared_bundle w = load_bundle w
  handle (get_settings source_id) w =
      (returned (settings (effective_settings source_id w.storage)), w)
  handle (update_app_settings value) w =
      after_write (write_app_settings browser value w.storage) none w
  handle (update_data_source_settings value) w =
      after_write (write_source_settings browser value w.storage) (some value.source_id) w
  handle reset_app w = after_write (reset_app_settings browser w.storage) none w
  handle (reset_data_source source_id) w =
      after_write (reset_source_settings browser source_id w.storage) (some source_id) w
  handle clear_layouts w = clear w
  handle get_security_status w = (returned (security (security_status w.storage)), w)
