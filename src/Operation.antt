-- ===== src/Operation.antt =====
-- libs/domain/operation.go: the Operation aggregate.
pub mod Model
pub mod Invariant
pub mod Lifecycle
mod Tests
