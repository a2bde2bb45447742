-- ===== src/Mcp/Permissions/Tests.antt =====
-- Presets and tools that are concrete.
use axonops_schema_registry.Common.{true, false, [], ◌∷◌, ◌≡◌, refl, get, put}
use axonops_schema_registry.Mcp.Permissions.{
  McpConfig, is_tool_allowed, is_scope_allowed, resolve_permission_scopes, scopes_or_read_only,
  add_scopes,
}
use axonops_schema_registry.Mcp.Permissions.Presets.{
  developer, with_preset, with_policy, presets_grow, read_only_decides,
}

abbrev reading : McpConfig
reading = record {
  read_only = true;
  tool_policy = "deny_list";
  allowed_tools = [];
  denied_tools = "get_config" ∷ [];
  permission_preset = "";
  permission_scopes = [];
}

get_config_denied : is_tool_allowed reading "get_config" true ≡ true
unfolding is_tool_allowed is_scope_allowed resolve_permission_scopes scopes_or_read_only add_scopes
    get put
get_config_denied = refl

list_users_hidden : is_tool_allowed reading "list_users" true ≡ false
unfolding is_tool_allowed is_scope_allowed resolve_permission_scopes scopes_or_read_only add_scopes
    get put
list_users_hidden = refl

presets_grow_example :
    is_tool_allowed (with_preset reading "operator") "register_schema" false ≡ true
unfolding is_tool_allowed is_scope_allowed resolve_permission_scopes scopes_or_read_only add_scopes
    get put
presets_grow_example = presets_grow reading developer "register_schema" false refl

read_only_decides_example :
    is_tool_allowed reading "delete_subject" false
    ≡ is_tool_allowed (with_policy reading "allow_all" [] []) "delete_subject" true
read_only_decides_example =
    read_only_decides reading "allow_all" [] [] "delete_subject" false true refl
