-- ===== src/Auth/Rbac/Tests.antt =====
-- The theorems on the authorizer at concrete requests.
use axonops_schema_registry.Common.{String, ◌≡◌, refl, true, [], ◌∷◌, ℕ_eq, string_eq, ℤ_eq}
use axonops_schema_registry.Auth.Rbac.{
  role_permissions, RbacConfig, has_permission, served, forbidden, default_endpoint_permissions,
  cut_prefix, has_prefix, normalize_path_for_rbac, match_endpoint, authorize_endpoint,
}
use axonops_schema_registry.Auth.Rbac.Roles.{with_role, roles_grow, match_prefix_served}

abbrev strict : RbacConfig
strict = record { enabled = true; default_role = "readonly"; super_admins = "root" ∷ [] }

abbrev LetsIn : String → Type 0
LetsIn role =
    authorize_endpoint strict default_endpoint_permissions (with_role "ann" role) "GET"
      "/contexts/.a/subjects"
    ≡ served

roles_grow_example :
    (LetsIn "readonly" → LetsIn "developer")
    × (LetsIn "developer" → LetsIn "admin")
    × (LetsIn "admin" → LetsIn "super_admin")
roles_grow_example =
    roles_grow strict default_endpoint_permissions "ann" "GET" "/contexts/.a/subjects"

match_prefix_served_example :
    authorize_endpoint strict default_endpoint_permissions
      (with_role "ann" "readonly")
      "POST"
      "/subjects/match-orders/versions"
    ≡ served
match_prefix_served_example = match_prefix_served strict "ann" "-orders/versions"

-- To register under most names, a reader is refused.
orders_are_refused :
    authorize_endpoint strict default_endpoint_permissions
      (with_role "ann" "readonly")
      "POST"
      "/subjects/orders/versions"
    ≡ forbidden
unfolding authorize_endpoint match_endpoint normalize_path_for_rbac has_prefix cut_prefix
    has_permission role_permissions
orders_are_refused = refl
