-- ===== src/Gc.antt =====
-- internal/gc: the garbage collector of a repository, which marks unreachable objects and sweeps those
-- that have been unreachable for a retention period.
pub mod LiveSet
pub mod Discover
pub mod Marks
pub mod Mark
pub mod Sweep
pub mod Unreachable
pub mod TxRecords
pub mod Grace
mod Tests
