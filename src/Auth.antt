-- ===== src/Auth.antt =====
-- Authentication and authorization: internal/auth.
pub mod Rbac
