-- ===== src/Web/Defaults.antt =====
-- platform/settings-defaults.ts: the settings before anything is stored.
use nodal_studio.Prelude.{String, true, false, [], ◌∷◌}
use nodal_studio.Web.Json.{Fields, null, boolean, number, text, object, fields_of}

abbrev pub default_ai_reply_preferences : Fields
default_ai_reply_preferences = fields_of (
    ("language", text "interface")
    ∷ ("detail", text "balanced")
    ∷ ("terminology", text "technical")
    ∷ ("additionalInstructions", text "")
    ∷ [])

abbrev pub default_general : Fields
default_general = fields_of (
    ("language", text "system")
    ∷ ("theme", text "system")
    ∷ ("uiScalePercent", number "110")
    ∷ ("startPage", text "lastDataSource")
    ∷ ("reopenLastWorkspace", boolean true)
    ∷ ("confirmBeforeQuit", boolean true)
    ∷ ("dateTimeFormat", text "local")
    ∷ ("lastSourceId", null)
    ∷ ("lastViewMode", text "explore")
    ∷ [])

abbrev pub default_appearance : Fields
default_appearance = fields_of (
    ("density", text "comfortable")
    ∷ ("uiFontSize", number "13")
    ∷ ("nodeFontSize", number "12")
    ∷ ("monospaceFontSize", number "11")
    ∷ ("reduceMotion", boolean false)
    ∷ ("highContrastRelations", boolean false)
    ∷ ("colorBlindPalette", boolean false)
    ∷ ("leftSidebarExpanded", boolean true)
    ∷ ("leftSidebarWidth", number "272")
    ∷ ("rightSidebarExpanded", boolean false)
    ∷ ("rightSidebarWidth", number "300")
    ∷ ("restoreSidebarState", boolean true)
    ∷ [])

abbrev pub default_canvas : Fields
default_canvas = fields_of (
    ("showSchema", boolean true)
    ∷ ("showTableComments", boolean true)
    ∷ ("showColumnTypes", boolean true)
    ∷ ("showColumnNullable", boolean true)
    ∷ ("showColumnDefaults", boolean false)
    ∷ ("showColumnComments", boolean true)
    ∷ ("showKeyBadges", boolean true)
    ∷ ("indexes", text "expanded")
    ∷ ("maxInitialColumns", number "60")
    ∷ ("showDeclaredRelationships", boolean true)
    ∷ ("showInferredRelationships", boolean true)
    ∷ ("fieldLevelEdges", boolean true)
    ∷ ("showRelationNames", boolean false)
    ∷ ("showCardinality", boolean false)
    ∷ ("showReferentialActions", boolean false)
    ∷ ("relationshipHighlightDepth", number "1")
    ∷ ("edgeStyle", text "orthogonal")
    ∷ ("layoutDirection", text "leftToRight")
    ∷ ("nodeSpacing", number "70")
    ∷ ("layerSpacing", number "110")
    ∷ ("edgeSpacing", number "24")
    ∷ ("restorePersonalLayout", boolean true)
    ∷ ("largeModelThreshold", number "500")
    ∷ [])

abbrev pub default_connection_defaults : Fields
default_connection_defaults =
    fields_of (("databaseEngine", text "postgreSql") ∷ ("sslMode", text "disable") ∷ [])

abbrev pub default_history : Fields
default_history = fields_of (
    ("capturePolicy", text "onChange")
    ∷ ("retention", text "forever")
    ∷ ("retentionValue", number "100")
    ∷ ("preserveHighRisk", boolean true)
    ∷ ("storageWarningMegabytes", number "1024")
    ∷ [])

abbrev pub default_privacy : Fields
default_privacy = fields_of (
    ("offlineMode", boolean false)
    ∷ ("diagnosticsEnabled", boolean false)
    ∷ ("crashReportsEnabled", boolean false)
    ∷ ("logLevel", text "warn")
    ∷ ("logRetentionDays", number "14")
    ∷ [])

abbrev pub default_notifications : Fields
default_notifications = fields_of (
    ("schemaChanges", text "highRisk")
    ∷ ("gitConflicts", boolean true)
    ∷ ("cloudFailures", boolean true)
    ∷ ("storageWarnings", boolean true)
    ∷ ("updateAvailable", boolean true)
    ∷ ("systemNotifications", boolean false)
    ∷ ("quietHoursEnabled", boolean false)
    ∷ ("quietHoursStart", text "22:00")
    ∷ ("quietHoursEnd", text "08:00")
    ∷ [])

abbrev pub default_shortcuts : Fields
default_shortcuts = fields_of (
    (
      "bindings",
      object (
          fields_of (
            ("openSettings", text "Mod+,")
            ∷ ("focusSearch", text "Mod+F")
            ∷ ("refreshSchema", text "Mod+R")
            ∷ ("toggleLeftSidebar", text "Mod+Shift+L")
            ∷ ("toggleRightInspector", text "Mod+Shift+I")
            ∷ ("fitCanvas", text "F")
            ∷ ("focusSelectedTable", text "Enter")
            ∷ ("relayoutCanvas", text "Mod+Shift+R")
            ∷ [])),
    )
    ∷ [])

abbrev pub default_updates : Fields
default_updates =
    fields_of (
      ("automaticChecks", boolean true) ∷ ("channel", text "stable") ∷ ("customFeedUrl", null) ∷ [])

abbrev pub default_advanced : Fields
default_advanced = fields_of (
    ("performanceMetrics", boolean false)
    ∷ ("layoutWorkerTimeoutMs", number "15000")
    ∷ ("renderDegradeThreshold", number "500")
    ∷ ("betaFeatures", boolean false)
    ∷ (
      "experimentalFeatures",
      object (
          fields_of (
            ("largeModelVirtualization", boolean false)
            ∷ ("relationshipInferenceV2", boolean false)
            ∷ [])),
    )
    ∷ (
      "extensions",
      object (
          fields_of (
            ("environmentDrift", boolean true)
            ∷ ("migrationProvenance", boolean true)
            ∷ ("codeLineage", boolean true)
            ∷ [])),
    )
    ∷ [])

unfoldable pub default_app_settings : Fields
default_app_settings = fields_of (
    ("schemaVersion", number "1")
    ∷ ("legacyStorageMigrationVersion", number "0")
    ∷ ("general", object default_general)
    ∷ ("appearance", object default_appearance)
    ∷ ("canvas", object default_canvas)
    ∷ ("connectionDefaults", object default_connection_defaults)
    ∷ ("history", object default_history)
    ∷ ("privacy", object default_privacy)
    ∷ ("notifications", object default_notifications)
    ∷ ("shortcuts", object default_shortcuts)
    ∷ ("updates", object default_updates)
    ∷ ("advanced", object default_advanced)
    ∷ [])

abbrev pub default_source_refresh : Fields
default_source_refresh = fields_of (
    ("intervalSeconds", number "30")
    ∷ ("pauseInBackground", boolean true)
    ∷ ("changeNotifications", text "highRisk")
    ∷ ("connectionTimeoutSeconds", number "15")
    ∷ ("introspectionTimeoutSeconds", number "60")
    ∷ ("autoConnect", boolean false)
    ∷ [])

abbrev pub default_source_storage : Fields
default_source_storage = fields_of (
    ("capturePolicy", text "onChange")
    ∷ ("retention", text "forever")
    ∷ ("retentionValue", number "100")
    ∷ ("preserveHighRisk", boolean true)
    ∷ [])

abbrev pub default_source_git : Fields
default_source_git =
    fields_of (("repositoryPath", text "") ∷ ("commitReminders", boolean false) ∷ [])

abbrev pub default_source_ai : Fields
default_source_ai = fields_of (
    ("enabled", boolean false)
    ∷ ("provider", text "offline")
    ∷ ("endpoint", text "")
    ∷ ("model", text "")
    ∷ ("timeoutSeconds", number "30")
    ∷ ("maxRetries", number "1")
    ∷ ("maxConcurrency", number "2")
    ∷ ("contextScope", text "currentTable")
    ∷ ("replyPreferences", object default_ai_reply_preferences)
    ∷ ("includeComments", boolean true)
    ∷ ("includeConfirmedSemantics", boolean true)
    ∷ ("credentialConfigured", boolean false)
    ∷ [])

abbrev pub default_source_cloud : Fields
default_source_cloud = fields_of (
    ("enabled", boolean false)
    ∷ ("endpoint", text "")
    ∷ ("viewerUrl", text "")
    ∷ ("accountLabel", text "")
    ∷ ("teamId", text "")
    ∷ ("projectId", text "")
    ∷ ("syncSemantics", boolean true)
    ∷ ("syncDomains", boolean true)
    ∷ ("syncSavedViews", boolean true)
    ∷ ("syncChangeSets", boolean true)
    ∷ ("syncSnapshots", boolean false)
    ∷ ("syncSharedLayouts", boolean true)
    ∷ ("syncPersonalLayouts", boolean false)
    ∷ ("conflictStrategy", text "ask")
    ∷ ("credentialConfigured", boolean false)
    ∷ ("baseVersion", number "0")
    ∷ ("lastSuccessAt", null)
    ∷ [])

unfoldable pub default_data_source_settings : String → Fields
default_data_source_settings source_id = fields_of (
    ("schemaVersion", number "1")
    ∷ ("legacyStorageMigrationVersion", number "0")
    ∷ ("sourceId", text source_id)
    ∷ ("refresh", object default_source_refresh)
    ∷ ("storage", object default_source_storage)
    ∷ ("git", object default_source_git)
    ∷ ("ai", object default_source_ai)
    ∷ ("cloud", object default_source_cloud)
    ∷ [])
