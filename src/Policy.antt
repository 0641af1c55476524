-- ===== src/Policy.antt =====
-- internal/policy: the rules that protect refs and paths of a repository.
pub mod Match
pub mod Paths
pub mod Refs
