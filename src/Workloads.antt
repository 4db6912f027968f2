-- ===== src/Workloads.antt =====
-- The programs of workloads/durability_tests, which run on a mounted file system.
pub mod Reorder
pub mod Recorded
pub mod Fib
pub mod Checkpoint
pub mod Lines
pub mod Durable
pub mod Throughout
pub mod Recovers
