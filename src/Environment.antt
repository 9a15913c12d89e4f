-- ===== src/Environment.antt =====
-- libs/domain/environment.go: the Environment aggregate.
pub mod Snapshot
pub mod Operations
pub mod WellFormed
pub mod Steps
pub mod Cases
pub mod Invariant
pub mod Runtimes
pub mod Deletion
pub mod Results
mod Tests
