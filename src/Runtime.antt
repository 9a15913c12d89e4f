-- ===== src/Runtime.antt =====
-- libs/domain/runtime.go: the Runtime aggregate.
pub mod Status
pub mod Snapshot
pub mod Operations
pub mod WellFormed
pub mod Steps
pub mod Cases
pub mod Invariant
pub mod Progress
pub mod Late
mod Tests
