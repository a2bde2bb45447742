-- ===== src/Auth/Rbac.antt =====
-- Roles and their permissions: internal/auth/rbac.go.
use axonops_schema_registry.Common.{
  String, Bool, true, false, not, ◌&&◌, Option, none, some, List, [], ◌∷◌, nat_eq, if◌then◌else◌,
  ℕ_eq, string_eq, ◌==◌, ℤ_eq,
}
use axonops_schema_registry.Rules.{member}
use Prim.Native.Char.{Char, code}
use Prim.Native.String.{[], ◌∷◌}
pub mod Roles
pub mod Tests

abbrev pub super_admin_permissions : List String
super_admin_permissions =
    "schema:read" ∷ "schema:write" ∷ "schema:delete" ∷ "config:read" ∷ "config:write" ∷ "mode:read"
    ∷ "mode:write" ∷ "import:write" ∷ "admin:read" ∷ "admin:write" ∷ "encryption:read"
    ∷ "encryption:write" ∷ "exporter:read" ∷ "exporter:write" ∷ []

abbrev pub admin_permissions : List String
admin_permissions =
    "schema:read" ∷ "schema:write" ∷ "schema:delete" ∷ "config:read" ∷ "config:write" ∷ "mode:read"
    ∷ "mode:write" ∷ "import:write" ∷ "admin:read" ∷ "encryption:read" ∷ "encryption:write"
    ∷ "exporter:read" ∷ "exporter:write" ∷ []

abbrev pub developer_permissions : List String
developer_permissions =
    "schema:read" ∷ "schema:write" ∷ "config:read" ∷ "mode:read" ∷ "encryption:read"
    ∷ "exporter:read" ∷ []

abbrev pub read_only_permissions : List String
read_only_permissions =
    "schema:read" ∷ "config:read" ∷ "mode:read" ∷ "encryption:read" ∷ "exporter:read" ∷ []

-- `rolePermissions`
unfoldable pub role_permissions : String → Option (List String)
role_permissions role =
    if role == "super_admin"
    then some super_admin_permissions
    else if role == "admin"
    then some admin_permissions
    else if role == "developer"
    then some developer_permissions
    else if role == "readonly"
    then some read_only_permissions
    else none

unfoldable pub valid_role : String → Bool
valid_role role = member role ("super_admin" ∷ "admin" ∷ "developer" ∷ "readonly" ∷ [])

pub record RbacConfig : Type 0 where
  pub enabled : Bool
  pub default_role : String
  pub super_admins : List String

-- The part of `User` that the authorizer reads.
pub record User : Type 0 where
  pub username : String
  pub role : String

abbrev pub role_of : RbacConfig → User → String
role_of config user = if user.role == "" then config.default_role else user.role

-- A missing user is none.
unfoldable pub has_permission : RbacConfig → Option User → String → Bool
has_permission config none perm = false
has_permission config (some user) perm =
    if member user.username config.super_admins
    then true
    else elim (role_permissions (role_of config user)) [
      | none ↦ false
      | some perms ↦ member perm perms
    ]

-- What a request is answered: it is served by the next handler, or refused.
pub data Outcome : Type 0 where
  served unauthorized forbidden : Outcome

unfoldable pub require_permission : RbacConfig → String → Option User → Outcome
require_permission config perm user = if not config.enabled then served else elim user [
  | none ↦ unauthorized
  | some u ↦ if not (has_permission config (some u) perm) then forbidden else served
]

pub record EndpointPermission : Type 0 where
  pub method : String
  pub path_prefix : String
  pub permission : String

abbrev endpoint : String → String → String → EndpointPermission
endpoint method path_prefix permission = record {
  method = method;
  path_prefix = path_prefix;
  permission = permission;
}

abbrev pub default_endpoint_permissions : List EndpointPermission
default_endpoint_permissions =
    endpoint "GET" "/subjects" "schema:read"
    ∷ endpoint "GET" "/schemas" "schema:read"
    ∷ endpoint "POST" "/schemas" "schema:read"
    ∷ endpoint "POST" "/subjects/validate" "schema:read"
    ∷ endpoint "POST" "/subjects/match" "schema:read"
    ∷ endpoint "POST" "/subjects" "schema:write"
    ∷ endpoint "POST" "/compatibility" "schema:read"
    ∷ endpoint "DELETE" "/subjects" "schema:delete"
    ∷ endpoint "GET" "/config" "config:read"
    ∷ endpoint "PUT" "/config" "config:write"
    ∷ endpoint "DELETE" "/config" "config:write"
    ∷ endpoint "GET" "/mode" "mode:read"
    ∷ endpoint "PUT" "/mode" "mode:write"
    ∷ endpoint "POST" "/import" "import:write"
    ∷ endpoint "GET" "/dek-registry" "encryption:read"
    ∷ endpoint "POST" "/dek-registry" "encryption:write"
    ∷ endpoint "PUT" "/dek-registry" "encryption:write"
    ∷ endpoint "DELETE" "/dek-registry" "encryption:write"
    ∷ endpoint "GET" "/exporters" "exporter:read"
    ∷ endpoint "POST" "/exporters" "exporter:write"
    ∷ endpoint "PUT" "/exporters" "exporter:write"
    ∷ endpoint "DELETE" "/exporters" "exporter:write"
    ∷ endpoint "DELETE" "/mode" "mode:write"
    ∷ endpoint "GET" "/admin" "admin:read"
    ∷ endpoint "POST" "/admin" "admin:write"
    ∷ endpoint "PUT" "/admin" "admin:write"
    ∷ endpoint "DELETE" "/admin" "admin:write"
    ∷ endpoint "GET" "/me" "schema:read"
    ∷ endpoint "POST" "/me" "schema:read"
    ∷ endpoint "GET" "/contexts" "schema:read"
    ∷ endpoint "GET" "/v1/metadata" "schema:read"
    ∷ endpoint "GET" "/statistics" "schema:read"
    ∷ []

-- `strings.HasPrefix` and the slice after the prefix.
unfoldable pub cut_prefix : String → String → Option String
cut_prefix s [] = some s
cut_prefix [] (c ∷ p) = none
cut_prefix (d ∷ s) (c ∷ p) = if nat_eq (code d) (code c) then cut_prefix s p else none

unfoldable pub has_prefix : String → String → Bool
has_prefix s p = elim (cut_prefix s p) [ none ↦ false | some _ ↦ true ]

-- The text from its first slash on.
unfoldable pub from_slash : String → Option String
from_slash [] = none
from_slash (c ∷ s) =
    let later = from_slash s in if nat_eq (code c) b'/' then some (c ∷ s) else later

unfoldable pub normalize_path_for_rbac : String → String
normalize_path_for_rbac path = elim (cut_prefix path "/contexts/") [
  | none ↦ path
  | some rest ↦ elim (from_slash rest) [ none ↦ "/" | some sub_path ↦ sub_path ]
]

-- The loop over the entries, and the check after it.
unfoldable pub match_endpoint :
    RbacConfig → Option User → String → String → List EndpointPermission → Outcome
match_endpoint config none method path [] = served
match_endpoint config (some user) method path [] = forbidden
match_endpoint config user method path (ep ∷ rest) =
    let later = match_endpoint config user method path rest in
    if method == ep.method && has_prefix path ep.path_prefix
    then elim user [
      | none ↦ unauthorized
      | some u ↦ if not (has_permission config (some u) ep.permission) then forbidden else served
    ]
    else later

unfoldable pub authorize_endpoint :
    RbacConfig → List EndpointPermission → Option User → String → String → Outcome
authorize_endpoint config permissions user method path =
    if not config.enabled
    then served
    else match_endpoint config user method (normalize_path_for_rbac path) permissions
