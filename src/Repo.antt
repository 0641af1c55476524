-- ===== src/Repo.antt =====
-- internal/repo: the repository engine over an object store.
pub mod Keys
pub mod Errors
pub mod Manifest
pub mod Tx
pub mod Commit
pub mod RefStore
pub mod Body
pub mod Memory
mod Tests
