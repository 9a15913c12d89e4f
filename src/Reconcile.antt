-- ===== src/Reconcile.antt =====
-- libs/domain/reconciliation.go: the reconciliation of a Capsule Lock.
pub mod Model
pub mod Keys
pub mod Steady
pub mod Tests
