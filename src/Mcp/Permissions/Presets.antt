-- ===== src/Mcp/Permissions/Presets.antt =====
-- What the presets let through.
use axonops_schema_registry.Common.{
  String, Bool, true, false, ◌||◌, not, if◌then◌else◌, subst, Option, none, some, List, [], ◌∷◌,
  ◌≡◌, refl, sym, arith, ℕ_eq, string_eq, ◌==◌, Map, get, put, get-put,
}
use axonops_schema_registry.Rules.{member}
use axonops_schema_registry.Mcp.Permissions.{
  McpConfig, readonly_scopes, developer_scopes, operator_scopes, admin_scopes, all_scopes,
  scope_set, add_scopes, holds, scope_allowed, is_scope_allowed, tool_permission_scope,
  is_tool_allowed, tool_allowed, preset_or, scopes_or_read_only, resolve_permission_scopes,
  permission_presets,
}

holds-add_scopes :
    (m : Map String Bool) (scopes : List String) (s : String)
    → holds (get (add_scopes m scopes) s) ≡ (holds (get m s) || member s scopes)
unfolding add_scopes
holds-add_scopes m [] s = ground arith
holds-add_scopes m (x ∷ rest) s = ground (
  arith,
  holds-add_scopes (put m x true) rest s,
  get-put m x s true,
  string_eq.equal_iff x s,
  string_eq.equal_iff s x,
)

holds-scope_set :
    (scopes : List String) (s : String) → holds (get (scope_set scopes) s) ≡ member s scopes
unfolding get
holds-scope_set scopes s = holds-add_scopes [] scopes s

abbrev Within : List String → List String → Type 0
Within xs ys = (s : String) → member s xs ≡ true → member s ys ≡ true

readonly-Within : Within readonly_scopes developer_scopes
readonly-Within s h = ground (arith, h)

developer-Within : Within developer_scopes operator_scopes
developer-Within s h = ground (arith, h)

operator-Within : Within operator_scopes admin_scopes
operator-Within s h = ground (arith, h)

admin-Within : Within admin_scopes all_scopes
admin-Within s h = ground (arith, h)

scope_allowed-Within :
    (xs ys : List String) (scope : Option String)
    → Within xs ys
    → scope_allowed scope (some (scope_set xs)) ≡ true
    → scope_allowed scope (some (scope_set ys)) ≡ true
scope_allowed-Within xs ys none w h = refl
scope_allowed-Within xs ys (some scope) w h =
    ground (arith, h, w scope, holds-scope_set xs scope, holds-scope_set ys scope)

is_scope_allowed-Within :
    (xs ys : List String) (tool : String)
    → Within xs ys
    → is_scope_allowed tool (some (scope_set xs)) ≡ true
    → is_scope_allowed tool (some (scope_set ys)) ≡ true
unfolding is_scope_allowed
is_scope_allowed-Within xs ys tool w h =
    scope_allowed-Within xs ys (get tool_permission_scope tool) w h

pub data Preset : Type 0 where
  readonly developer operator admin full : Preset

abbrev pub preset_name : Preset → String
preset_name readonly = "readonly"
preset_name developer = "developer"
preset_name operator = "operator"
preset_name admin = "admin"
preset_name full = "full"

abbrev pub stronger : Preset → Preset
stronger readonly = developer
stronger developer = operator
stronger operator = admin
stronger admin = full
stronger full = full

-- The configuration with another preset.
abbrev pub with_preset : McpConfig → String → McpConfig
with_preset config preset = record {
  read_only = config.read_only;
  tool_policy = config.tool_policy;
  allowed_tools = config.allowed_tools;
  denied_tools = config.denied_tools;
  permission_preset = preset;
  permission_scopes = config.permission_scopes;
}

-- The configuration with another policy on tools.
abbrev pub with_policy : McpConfig → String → List String → List String → McpConfig
with_policy config policy allowed denied = record {
  read_only = config.read_only;
  tool_policy = policy;
  allowed_tools = allowed;
  denied_tools = denied;
  permission_preset = config.permission_preset;
  permission_scopes = config.permission_scopes;
}

-- Whatever else is configured, each preset lets through what the weaker one does: readonly,
-- developer, operator, admin, full, in this order.
pub presets_grow :
    (config : McpConfig) (p : Preset) (name : String) (hint : Bool)
    → is_tool_allowed (with_preset config (preset_name p)) name hint ≡ true
    → is_tool_allowed (with_preset config (preset_name (stronger p))) name hint ≡ true
unfolding is_tool_allowed resolve_permission_scopes get
presets_grow config readonly name hint h = is_scope_allowed-Within _ _ name readonly-Within h
presets_grow config developer name hint h = is_scope_allowed-Within _ _ name developer-Within h
presets_grow config operator name hint h = is_scope_allowed-Within _ _ name operator-Within h
presets_grow config admin name hint h = is_scope_allowed-Within _ _ name admin-Within h
presets_grow config full name hint h = h

abbrev Given : Option (Map String Bool) → Type 0
Given none = ⊥
Given (some resolved) = Unit

scopes_or_read_only-Given : (scopes : List String) → Given (scopes_or_read_only scopes true)
unfolding scopes_or_read_only
scopes_or_read_only-Given [] = tt
scopes_or_read_only-Given (s ∷ rest) = tt

preset_or-Given :
    (entry : Option (Option (List String))) (otherwise : Option (Map String Bool))
    → Given otherwise
    → Given (preset_or entry otherwise)
preset_or-Given none otherwise g = g
preset_or-Given (some none) otherwise g = tt
preset_or-Given (some (some scopes)) otherwise g = tt

if-Given :
    (c : Bool) (r r' : Option (Map String Bool)) → Given r → Given r' → Given (if c then r else r')
if-Given true r r' g g' = g
if-Given false r r' g g' = g'

resolve_permission_scopes-Given :
    (preset : String) (scopes : List String) → Given (resolve_permission_scopes preset scopes true)
unfolding resolve_permission_scopes
resolve_permission_scopes-Given preset scopes =
    let g = scopes_or_read_only-Given scopes in
    if-Given (not (preset == "")) _ _ (preset_or-Given (get permission_presets preset) _ g) g

tool_allowed-Given :
    (config other : McpConfig) (resolved : Option (Map String Bool)) (name : String)
    (hint hint' : Bool)
    → Given resolved
    → tool_allowed config resolved name hint ≡ tool_allowed other resolved name hint'
tool_allowed-Given config other none name hint hint' g = elim g [ ]
tool_allowed-Given config other (some resolved) name hint hint' g = refl

-- With read_only, a tool's own annotation and the policy on tools play no part: whatever they are,
-- the tools that are let through are the same.
pub read_only_decides :
    (config : McpConfig) (policy : String) (allowed denied : List String) (name : String)
    (hint hint' : Bool)
    → config.read_only ≡ true
    → is_tool_allowed config name hint
      ≡ is_tool_allowed (with_policy config policy allowed denied) name hint'
unfolding is_tool_allowed
read_only_decides config policy allowed denied name hint hint' h =
    tool_allowed-Given config (with_policy config policy allowed denied) _ name hint hint' (
      subst
        (λ r. Given (resolve_permission_scopes config.permission_preset config.permission_scopes r))
        (sym h) (resolve_permission_scopes-Given config.permission_preset config.permission_scopes))
