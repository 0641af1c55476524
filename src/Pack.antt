-- ===== src/Pack.antt =====
-- internal/pack: reading objects out of a Git pack.
pub mod Delta
pub mod Resolve
