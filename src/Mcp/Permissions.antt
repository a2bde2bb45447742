-- ===== src/Mcp/Permissions.antt =====
-- The permissions of MCP tools: internal/mcp/permissions.go, and `isToolAllowed` in internal/mcp/tools.go.
-- A scope is written as the text of its constant. Not modelled: the metric of denied tools.
use axonops_schema_registry.Common.{
  get, put, String, Bool, true, false, not, ◌&&◌, ◌||◌, Option, none, some, List, [], ◌∷◌,
  if◌then◌else◌, ℕ_eq, string_eq, ◌==◌, ℤ_eq, Map,
}
use axonops_schema_registry.Rules.{member}
pub mod Presets
pub mod Tests

abbrev pub all_scopes : List String
all_scopes =
    "schema_read" ∷ "schema_write" ∷ "schema_delete" ∷ "config_read" ∷ "config_write" ∷ "mode_read"
    ∷ "mode_write" ∷ "import" ∷ "encryption_read" ∷ "encryption_write" ∷ "exporter_read"
    ∷ "exporter_write" ∷ "admin_read" ∷ "admin_write" ∷ []

abbrev pub readonly_scopes : List String
readonly_scopes =
    "schema_read" ∷ "config_read" ∷ "mode_read" ∷ "encryption_read" ∷ "exporter_read" ∷ []

abbrev pub developer_scopes : List String
developer_scopes =
    "schema_read" ∷ "config_read" ∷ "mode_read" ∷ "encryption_read" ∷ "exporter_read"
    ∷ "schema_write" ∷ "config_write" ∷ []

abbrev pub operator_scopes : List String
operator_scopes =
    "schema_read" ∷ "config_read" ∷ "mode_read" ∷ "encryption_read" ∷ "exporter_read"
    ∷ "schema_write" ∷ "config_write" ∷ "schema_delete" ∷ "mode_write" ∷ "encryption_write"
    ∷ "exporter_write" ∷ "import" ∷ []

abbrev pub admin_scopes : List String
admin_scopes =
    "schema_read" ∷ "config_read" ∷ "mode_read" ∷ "encryption_read" ∷ "exporter_read"
    ∷ "schema_write" ∷ "config_write" ∷ "schema_delete" ∷ "mode_write" ∷ "encryption_write"
    ∷ "exporter_write" ∷ "import" ∷ "admin_read" ∷ "admin_write" ∷ []

-- `none` is `nil`: all scopes.
abbrev pub permission_presets : Map String (Option (List String))
permission_presets =
    ("readonly", some readonly_scopes)
    ∷ ("developer", some developer_scopes)
    ∷ ("operator", some operator_scopes)
    ∷ ("admin", some admin_scopes)
    ∷ ("full", none)
    ∷ []

-- Tools with an empty scope are system tools.
abbrev pub tool_permission_scope : Map String String
tool_permission_scope =
    ("health_check", "")
    ∷ ("get_server_info", "")
    ∷ ("get_server_version", "")
    ∷ ("get_cluster_id", "")
    ∷ ("get_schema_types", "")
    ∷ ("list_contexts", "")
    ∷ ("count_subjects", "")
    ∷ ("get_registry_statistics", "")
    ∷ ("get_metrics_summary", "")
    ∷ ("get_metrics_by_category", "")
    ∷ ("query_metric", "")
    ∷ ("list_metrics", "")
    ∷ ("get_schema_by_id", "schema_read")
    ∷ ("get_raw_schema_by_id", "schema_read")
    ∷ ("get_schema_version", "schema_read")
    ∷ ("get_raw_schema_version", "schema_read")
    ∷ ("get_latest_schema", "schema_read")
    ∷ ("list_versions", "schema_read")
    ∷ ("get_subjects_for_schema", "schema_read")
    ∷ ("get_versions_for_schema", "schema_read")
    ∷ ("get_referenced_by", "schema_read")
    ∷ ("lookup_schema", "schema_read")
    ∷ ("list_schemas", "schema_read")
    ∷ ("get_max_schema_id", "schema_read")
    ∷ ("list_subjects", "schema_read")
    ∷ ("get_schemas_by_subject", "schema_read")
    ∷ ("get_schema_history", "schema_read")
    ∷ ("get_dependency_graph", "schema_read")
    ∷ ("export_schema", "schema_read")
    ∷ ("export_subject", "schema_read")
    ∷ ("count_versions", "schema_read")
    ∷ ("search_schemas", "schema_read")
    ∷ ("match_subjects", "schema_read")
    ∷ ("format_schema", "schema_read")
    ∷ ("resolve_alias", "schema_read")
    ∷ ("get_subject_metadata", "schema_read")
    ∷ ("validate_schema", "schema_read")
    ∷ ("normalize_schema", "schema_read")
    ∷ ("validate_subject_name", "schema_read")
    ∷ ("check_compatibility", "schema_read")
    ∷ ("find_schemas_by_field", "schema_read")
    ∷ ("find_schemas_by_type", "schema_read")
    ∷ ("find_similar_schemas", "schema_read")
    ∷ ("score_schema_quality", "schema_read")
    ∷ ("check_field_consistency", "schema_read")
    ∷ ("get_schema_complexity", "schema_read")
    ∷ ("detect_schema_patterns", "schema_read")
    ∷ ("suggest_schema_evolution", "schema_read")
    ∷ ("plan_migration_path", "schema_read")
    ∷ ("check_compatibility_multi", "schema_read")
    ∷ ("diff_schemas", "schema_read")
    ∷ ("compare_subjects", "schema_read")
    ∷ ("suggest_compatible_change", "schema_read")
    ∷ ("explain_compatibility_failure", "schema_read")
    ∷ ("register_schema", "schema_write")
    ∷ ("delete_subject", "schema_delete")
    ∷ ("delete_version", "schema_delete")
    ∷ ("get_config", "config_read")
    ∷ ("get_config_full", "config_read")
    ∷ ("get_subject_config_full", "config_read")
    ∷ ("get_global_config_direct", "config_read")
    ∷ ("set_config", "config_write")
    ∷ ("set_config_full", "config_write")
    ∷ ("delete_config", "config_write")
    ∷ ("get_mode", "mode_read")
    ∷ ("check_write_mode", "mode_read")
    ∷ ("set_mode", "mode_write")
    ∷ ("delete_mode", "mode_write")
    ∷ ("import_schemas", "import")
    ∷ ("get_kek", "encryption_read")
    ∷ ("list_keks", "encryption_read")
    ∷ ("get_dek", "encryption_read")
    ∷ ("list_deks", "encryption_read")
    ∷ ("list_dek_versions", "encryption_read")
    ∷ ("create_kek", "encryption_write")
    ∷ ("update_kek", "encryption_write")
    ∷ ("delete_kek", "encryption_write")
    ∷ ("undelete_kek", "encryption_write")
    ∷ ("test_kek", "encryption_write")
    ∷ ("create_dek", "encryption_write")
    ∷ ("delete_dek", "encryption_write")
    ∷ ("undelete_dek", "encryption_write")
    ∷ ("rewrap_dek", "encryption_write")
    ∷ ("list_exporters", "exporter_read")
    ∷ ("get_exporter", "exporter_read")
    ∷ ("get_exporter_status", "exporter_read")
    ∷ ("get_exporter_config", "exporter_read")
    ∷ ("create_exporter", "exporter_write")
    ∷ ("update_exporter", "exporter_write")
    ∷ ("delete_exporter", "exporter_write")
    ∷ ("pause_exporter", "exporter_write")
    ∷ ("resume_exporter", "exporter_write")
    ∷ ("reset_exporter", "exporter_write")
    ∷ ("update_exporter_config", "exporter_write")
    ∷ ("list_users", "admin_read")
    ∷ ("get_user", "admin_read")
    ∷ ("get_user_by_username", "admin_read")
    ∷ ("list_apikeys", "admin_read")
    ∷ ("get_apikey", "admin_read")
    ∷ ("list_roles", "admin_read")
    ∷ ("create_user", "admin_write")
    ∷ ("update_user", "admin_write")
    ∷ ("delete_user", "admin_write")
    ∷ ("change_password", "admin_write")
    ∷ ("create_apikey", "admin_write")
    ∷ ("update_apikey", "admin_write")
    ∷ ("delete_apikey", "admin_write")
    ∷ ("revoke_apikey", "admin_write")
    ∷ ("rotate_apikey", "admin_write")
    ∷ []

unfoldable pub add_scopes : Map String Bool → List String → Map String Bool
add_scopes m [] = m
add_scopes m (s ∷ rest) = add_scopes (put m s true) rest

abbrev pub scope_set : List String → Map String Bool
scope_set scopes = add_scopes [] scopes

-- The steps behind the preset; `none` is `nil`: scopes are not configured.
unfoldable pub scopes_or_read_only : List String → Bool → Option (Map String Bool)
scopes_or_read_only (s ∷ rest) read_only = some (scope_set (s ∷ rest))
scopes_or_read_only [] read_only = if read_only then some (scope_set readonly_scopes) else none

-- What a preset's entry in the map resolves to.
abbrev pub preset_or :
    Option (Option (List String)) → Option (Map String Bool) → Option (Map String Bool)
preset_or none otherwise = otherwise
preset_or (some none) otherwise = some (scope_set all_scopes)
preset_or (some (some preset_scopes)) otherwise = some (scope_set preset_scopes)

unfoldable pub resolve_permission_scopes : String → List String → Bool → Option (Map String Bool)
resolve_permission_scopes preset scopes read_only =
    let otherwise = scopes_or_read_only scopes read_only in
    if not (preset == "") then preset_or (get permission_presets preset) otherwise else otherwise

-- What a Go map of Booleans answers.
abbrev pub holds : Option Bool → Bool
holds none = false
holds (some b) = b

-- `isScopeAllowed` for a tool with the scope that is found for it in the table.
abbrev pub scope_allowed : Option String → Option (Map String Bool) → Bool
scope_allowed none resolved = true
scope_allowed (some scope) none = true
scope_allowed (some scope) (some resolved) = scope == "" || holds (get resolved scope)

unfoldable pub is_scope_allowed : String → Option (Map String Bool) → Bool
is_scope_allowed tool_name resolved_scopes =
    scope_allowed (get tool_permission_scope tool_name) resolved_scopes

pub record McpConfig : Type 0 where
  pub read_only : Bool
  pub tool_policy : String
  pub allowed_tools : List String
  pub denied_tools : List String
  pub permission_preset : String
  pub permission_scopes : List String

-- The switch on the policy; the empty policy is `allow_all`.
abbrev pub policy_allows : McpConfig → String → Bool
policy_allows config name =
    if config.tool_policy == "deny_list"
    then not (member name config.denied_tools)
    else if config.tool_policy == "allow_list"
    then member name config.allowed_tools
    else true

-- `isToolAllowed` on a server that `resolvePermissionScopes` has given its scopes.
abbrev pub tool_allowed : McpConfig → Option (Map String Bool) → String → Bool → Bool
tool_allowed config (some resolved) name read_only = is_scope_allowed name (some resolved)
tool_allowed config none name read_only =
    if config.read_only && not read_only then false else policy_allows config name

unfoldable pub is_tool_allowed : McpConfig → String → Bool → Bool
is_tool_allowed config name read_only =
    tool_allowed config
      (resolve_permission_scopes config.permission_preset config.permission_scopes config.read_only)
      name read_only
