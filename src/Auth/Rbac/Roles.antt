-- ===== src/Auth/Rbac/Roles.antt =====
-- What the roles and the table of endpoints let through.
use axonops_schema_registry.Common.{
  String, ◌≡◌, true, Option, some, List, [], ◌∷◌, arith, ℕ_eq, string_eq, ℤ_eq,
}
use axonops_schema_registry.Auth.Rbac.{
  role_permissions, RbacConfig, User, has_permission, served, EndpointPermission,
  default_endpoint_permissions, cut_prefix, has_prefix, normalize_path_for_rbac, match_endpoint,
  authorize_endpoint,
}
use Prim.Native.String.{[], ◌∷◌}

abbrev pub with_role : String → String → Option User
with_role name role = some (record { username = name; role = role })

-- Each permission of the one user is one of the other.
abbrev pub Grows : RbacConfig → Option User → Option User → Type 0
Grows config u v =
    (perm : String) → has_permission config u perm ≡ true → has_permission config v perm ≡ true

match_endpoint-Grows :
    (config : RbacConfig) (u v : User) (method path : String) (table : List EndpointPermission)
    → Grows config (some u) (some v)
    → match_endpoint config (some u) method path table ≡ served
    → match_endpoint config (some v) method path table ≡ served
unfolding match_endpoint
match_endpoint-Grows config u v method path [] grows h = absurd (cc h)
match_endpoint-Grows config u v method path (ep ∷ rest) grows h =
    ground (arith, h, match_endpoint-Grows config u v method path rest grows, grows ep.permission)

readonly-Grows :
    (config : RbacConfig) (name : String)
    → Grows config (with_role name "readonly") (with_role name "developer")
unfolding has_permission role_permissions
readonly-Grows config name perm h = ground (arith, h)

developer-Grows :
    (config : RbacConfig) (name : String)
    → Grows config (with_role name "developer") (with_role name "admin")
unfolding has_permission role_permissions
developer-Grows config name perm h = ground (arith, h)

admin-Grows :
    (config : RbacConfig) (name : String)
    → Grows config (with_role name "admin") (with_role name "super_admin")
unfolding has_permission role_permissions
admin-Grows config name perm h = ground (arith, h)

authorize_endpoint-Grows :
    (config : RbacConfig) (table : List EndpointPermission) (u v : User) (method path : String)
    → Grows config (some u) (some v)
    → authorize_endpoint config table (some u) method path ≡ served
    → authorize_endpoint config table (some v) method path ≡ served
unfolding authorize_endpoint
authorize_endpoint-Grows config table u v method path grows h =
    ground
      (arith, h, match_endpoint-Grows config u v method (normalize_path_for_rbac path) table grows)

-- For any table of endpoints and any request, each role is served where the weaker one is:
-- readonly, developer, admin, super_admin, in this order.
pub roles_grow :
    (config : RbacConfig) (table : List EndpointPermission) (name method path : String)
    → (authorize_endpoint config table (with_role name "readonly") method path ≡ served
        → authorize_endpoint config table (with_role name "developer") method path ≡ served)
      × (authorize_endpoint config table (with_role name "developer") method path ≡ served
          → authorize_endpoint config table (with_role name "admin") method path ≡ served)
      × (authorize_endpoint config table (with_role name "admin") method path ≡ served
          → authorize_endpoint config table (with_role name "super_admin") method path ≡ served)
roles_grow config table name method path = (
  authorize_endpoint-Grows config table _ _ method path (readonly-Grows config name),
  authorize_endpoint-Grows config table _ _ method path (developer-Grows config name),
  authorize_endpoint-Grows config table _ _ method path (admin-Grows config name),
)

-- A prefix, and what follows it.
abbrev pub joined : String → String → String
joined [] rest = rest
joined (c ∷ prefix) rest = c ∷ joined prefix rest

-- With the default table, a user whose role is readonly is served each POST whose path starts with
-- /subjects/match.
pub match_prefix_served :
    (config : RbacConfig) (name rest : String)
    → authorize_endpoint config default_endpoint_permissions
        (with_role name "readonly")
        "POST"
        (joined "/subjects/match" rest)
      ≡ served
unfolding authorize_endpoint match_endpoint normalize_path_for_rbac has_prefix cut_prefix
    has_permission role_permissions
match_prefix_served config name rest = ground arith
