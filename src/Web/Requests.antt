-- ===== src/Web/Requests.antt =====
-- platform/web-platform.ts: the requests whose answer depends on nothing, in the order of the source: those
-- that need the desktop application, and those with a constant answer.
use nodal_studio.Prelude.{false, [], ◌∷◌, Attempt, thrown, returned}
use nodal_studio.Web.Json.{Json, null, boolean, number, text, array, object, no_items, fields_of}

-- A promise that is rejected, or resolved with no value, or with a value.
pub data Answer : Type 0 where
  done : Answer
  value : Json → Answer

pub data ReviewRequest : Type 0 where
  preview_relationship_batch apply_relationship_batch list_relationship_batches : ReviewRequest
  undo_relationship_batch pick_workspace_path pick_connection_file : ReviewRequest
  export_query_result get_change_review apply_change_review : ReviewRequest
  prepare_knowledge_draft confirm_knowledge_draft cancel_knowledge_draft : ReviewRequest
  prepare_discovery run_discovery cancel_discovery : ReviewRequest
  prepare_table_explanation run_table_explanation cancel_table_explanation : ReviewRequest

unfoldable pub respond_review : ReviewRequest → Attempt Answer
respond_review preview_relationship_batch = thrown "Batch review requires the desktop app."
respond_review apply_relationship_batch = thrown "Batch review requires the desktop app."
respond_review list_relationship_batches = returned (value (array no_items))
respond_review undo_relationship_batch = thrown "Batch review requires the desktop app."
respond_review pick_workspace_path = thrown "File selection requires the desktop app."
respond_review pick_connection_file = thrown "Local certificate files require the desktop app."
respond_review export_query_result = thrown "Query result export requires the desktop app."
respond_review get_change_review = thrown "Change review requires a connected desktop source."
respond_review apply_change_review = thrown "Change review requires a connected desktop source."
respond_review prepare_knowledge_draft = thrown "Knowledge confirmation requires the desktop app."
respond_review confirm_knowledge_draft = thrown "Knowledge confirmation requires the desktop app."
respond_review cancel_knowledge_draft = returned done
respond_review prepare_discovery = thrown "Business discovery AI requires the desktop app."
respond_review run_discovery = thrown "Business discovery AI requires the desktop app."
respond_review cancel_discovery = returned done
respond_review prepare_table_explanation = thrown "Table understanding requires the desktop app."
respond_review run_table_explanation = thrown "Table understanding requires the desktop app."
respond_review cancel_table_explanation = returned done

pub data SourceRequest : Type 0 where
  get_runtime_info get_diagnostic_info reveal_app_directory : SourceRequest
  list_data_sources rename_data_source duplicate_data_source : SourceRequest
  save_data_source test_postgres_connection verify_and_refresh_data_source : SourceRequest
  capture_postgres_snapshot list_snapshots : SourceRequest

unfoldable pub respond_source : SourceRequest → Attempt Answer
respond_source get_runtime_info = returned (
    value (
      object (
        fields_of
          (("kind", text "web") ∷ ("label", text "Web runtime") ∷ ("version", text "0.1.0") ∷ []))))
respond_source get_diagnostic_info = returned (
    value (
      object (
        fields_of (
          ("appVersion", text "0.1.0")
          ∷ ("rustVersion", text "Unavailable in Web Viewer")
          ∷ ("target", text "web")
          ∷ ("dataDirectory", text "Browser storage")
          ∷ ("logDirectory", text "Browser developer console")
          ∷ []))))
respond_source reveal_app_directory = thrown "Application directories require the desktop app."
respond_source list_data_sources = returned (value (array no_items))
respond_source rename_data_source = thrown "Data source management requires the desktop app."
respond_source duplicate_data_source = thrown "Data source management requires the desktop app."
respond_source save_data_source = thrown "Saving data sources requires the desktop app."
respond_source test_postgres_connection = thrown "Database connections require the desktop app."
respond_source verify_and_refresh_data_source =
    thrown "Database connections require the desktop app."
respond_source capture_postgres_snapshot = thrown "Database capture requires the desktop app."
respond_source list_snapshots = returned (value (array no_items))

pub data QueryRequest : Type 0 where
  compare_snapshots execute_readonly_query cancel_query : QueryRequest
  list_query_history delete_query_history clear_query_history : QueryRequest

unfoldable pub respond_query : QueryRequest → Attempt Answer
respond_query compare_snapshots = thrown "Snapshot comparison requires the desktop app."
respond_query execute_readonly_query = thrown "Query execution requires the desktop app."
respond_query cancel_query = returned (value (boolean false))
respond_query list_query_history = returned (value (array no_items))
respond_query delete_query_history = returned (value (boolean false))
respond_query clear_query_history = returned (value (number "0"))

pub data AuthoringRequest : Type 0 where
  validate_logical_relationship create_logical_relationship update_logical_relationship :
      AuthoringRequest
  delete_logical_relationship ignore_relationship_inference list_ignored_relationship_inferences :
      AuthoringRequest
  restore_relationship_inference save_annotation save_domain_group : AuthoringRequest
  save_view delete_view save_layout : AuthoringRequest
  explain_schema test_ai_provider : AuthoringRequest

unfoldable pub respond_authoring : AuthoringRequest → Attempt Answer
respond_authoring validate_logical_relationship =
    thrown "Logical relationship validation requires the desktop app."
respond_authoring create_logical_relationship =
    thrown "Logical relationship editing requires the desktop app."
respond_authoring update_logical_relationship =
    thrown "Logical relationship editing requires the desktop app."
respond_authoring delete_logical_relationship =
    thrown "Logical relationship editing requires the desktop app."
respond_authoring ignore_relationship_inference =
    thrown "Relationship review requires the desktop app."
respond_authoring list_ignored_relationship_inferences = returned (value (array no_items))
respond_authoring restore_relationship_inference =
    thrown "Relationship review requires the desktop app."
respond_authoring save_annotation = thrown "Annotations require the desktop app."
respond_authoring save_domain_group = thrown "Domain groups require the desktop app."
respond_authoring save_view = thrown "Saved views require the desktop app."
respond_authoring delete_view = thrown "Shared diagrams are read only."
respond_authoring save_layout = thrown "Layout persistence requires the desktop app."
respond_authoring explain_schema = thrown "AI explanations require the desktop app or cloud API."
respond_authoring test_ai_provider = thrown "AI provider testing requires the desktop app."

pub data WorkspaceRequest : Type 0 where
  sync_project compare_environment_snapshots save_change_provenance : WorkspaceRequest
  save_code_lineage export_git_workspace preview_git_export : WorkspaceRequest
  preview_git_import import_git_workspace : WorkspaceRequest

unfoldable pub respond_workspace : WorkspaceRequest → Attempt Answer
respond_workspace sync_project = thrown "Cloud publishing requires the desktop app."
respond_workspace compare_environment_snapshots =
    thrown "Environment drift comparison requires the desktop app."
respond_workspace save_change_provenance =
    thrown "Change provenance editing requires the desktop app."
respond_workspace save_code_lineage = thrown "Code lineage import requires the desktop app."
respond_workspace export_git_workspace = thrown "Git workspace export requires the desktop app."
respond_workspace preview_git_export = thrown "Git workspace preview requires the desktop app."
respond_workspace preview_git_import = thrown "Git workspace preview requires the desktop app."
respond_workspace import_git_workspace = thrown "Git workspace import requires the desktop app."

pub data PolicyRequest : Type 0 where
  update_organization_policy refresh_organization_policy update_project_settings : PolicyRequest
  get_storage_usage : PolicyRequest

unfoldable pub respond_policy : PolicyRequest → Attempt Answer
respond_policy update_organization_policy =
    thrown "Organization policies are read-only in Web Viewer."
respond_policy refresh_organization_policy =
    thrown "Organization policy refresh requires the desktop app."
respond_policy update_project_settings = thrown "Project policies are read-only in Web Viewer."
respond_policy get_storage_usage = returned (
    value (
      object (
        fields_of (
          ("snapshotBytes", number "0")
          ∷ ("semanticBytes", number "0")
          ∷ ("layoutBytes", number "0")
          ∷ ("syncQueueBytes", number "0")
          ∷ ("settingsBytes", number "0")
          ∷ ("snapshotCount", number "0")
          ∷ ("pendingSyncCount", number "0")
          ∷ []))))

pub data CredentialRequest : Type 0 where
  clear_regenerable_cache save_ai_credential save_cloud_credential : CredentialRequest
  clear_credentials : CredentialRequest

unfoldable pub respond_credential : CredentialRequest → Attempt Answer
respond_credential clear_regenerable_cache = returned (value (number "0"))
respond_credential save_ai_credential = thrown "Credential storage requires the desktop app."
respond_credential save_cloud_credential = thrown "Credential storage requires the desktop app."
respond_credential clear_credentials = thrown "Credential storage requires the desktop app."

pub data AdminRequest : Type 0 where
  check_merge_driver read_git_conflict_report delete_git_conflict_report : AdminRequest
  export_settings_file preview_settings_file import_settings_file : AdminRequest
  export_portable_backup preview_portable_backup import_portable_backup : AdminRequest
  open_app_store get_purchase_status restore_app_purchase : AdminRequest
  get_update_status open_update_releases download_update : AdminRequest
  cancel_update_download install_update check_for_updates : AdminRequest
  delete_source_data preview_source_data_deletion generate_event_trigger_script : AdminRequest
  list_sync_diagnostics list_cloud_audit list_external_access : AdminRequest
  bootstrap_cloud_account refresh_cloud_session create_cloud_project : AdminRequest
  list_cloud_shares create_cloud_share revoke_cloud_share : AdminRequest
  rotate_cloud_share factory_reset : AdminRequest

unfoldable pub respond_admin : AdminRequest → Attempt Answer
respond_admin check_merge_driver = thrown "Git repository inspection requires the desktop app."
respond_admin read_git_conflict_report = thrown "Git conflict reports require the desktop app."
respond_admin delete_git_conflict_report = thrown "Git conflict reports require the desktop app."
respond_admin export_settings_file = thrown "Settings file export requires the desktop app."
respond_admin preview_settings_file = thrown "Settings file preview requires the desktop app."
respond_admin import_settings_file = thrown "Settings file import requires the desktop app."
respond_admin export_portable_backup = thrown "Portable backup export requires the desktop app."
respond_admin preview_portable_backup = thrown "Portable backup preview requires the desktop app."
respond_admin import_portable_backup = thrown "Portable backup import requires the desktop app."
respond_admin open_app_store = thrown "The Mac App Store requires macOS."
respond_admin get_purchase_status = returned (
    value (
      object (
        fields_of (
          ("distribution", text "community")
          ∷ ("state", text "community")
          ∷ ("reason", null)
          ∷ ("environment", null)
          ∷ ("checkedAt", null)
          ∷ ("canUsePaidFeatures", boolean false)
          ∷ ("busy", boolean false)
          ∷ []))))
respond_admin restore_app_purchase = thrown "Purchases require the Mac App Store app."
respond_admin get_update_status = thrown "Updates require the desktop app."
respond_admin open_update_releases = thrown "Updates require the desktop app."
respond_admin download_update = thrown "Updates require the desktop app."
respond_admin cancel_update_download = thrown "Updates require the desktop app."
respond_admin install_update = thrown "Updates require the desktop app."
respond_admin check_for_updates =
    thrown "Desktop application updates are unavailable in Web Viewer."
respond_admin delete_source_data = thrown "Data source deletion requires the desktop app."
respond_admin preview_source_data_deletion =
    thrown "Data source deletion preview requires the desktop app."
respond_admin generate_event_trigger_script =
    thrown "Event Trigger scripts require the desktop app."
respond_admin list_sync_diagnostics = returned (value (array no_items))
respond_admin list_cloud_audit = thrown "Cloud audit requires the desktop app."
respond_admin list_external_access = returned (value (array no_items))
respond_admin bootstrap_cloud_account = thrown "Cloud account management requires the desktop app."
respond_admin refresh_cloud_session = thrown "Cloud account management requires the desktop app."
respond_admin create_cloud_project = thrown "Cloud project management requires the desktop app."
respond_admin list_cloud_shares = returned (value (array no_items))
respond_admin create_cloud_share = thrown "Cloud sharing requires the desktop app."
respond_admin revoke_cloud_share = thrown "Cloud sharing requires the desktop app."
respond_admin rotate_cloud_share = thrown "Cloud sharing requires the desktop app."
respond_admin factory_reset = thrown "Factory reset requires the desktop app."
