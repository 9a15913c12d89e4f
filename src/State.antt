-- ===== src/State.antt =====
-- libs/domain/environment_state.go: the state of an Environment.
pub mod Model
pub mod Reserve
pub mod Exact
pub mod Restore
pub mod Tests
