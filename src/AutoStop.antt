-- ===== src/AutoStop.antt =====
-- libs/domain/autostop.go: the Auto-stop Policy; apps/workflows/auto_stop_coordinator.go: its timers.
pub mod Policy
pub mod Qualifies
pub mod Coordinator
pub mod Object
pub mod Outcomes
pub mod Timers
pub mod Invariant
pub mod Stops
pub mod Once
pub mod Runs
pub mod Suppressed
pub mod Tests
