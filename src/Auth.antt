-- ===== src/Auth.antt =====
-- internal/auth: decisions on permissions and scopes.
pub mod Permissions
pub mod Scopes
