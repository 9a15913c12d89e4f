-- ===== src/Capsule.antt =====
-- libs/domain/capsule_lock.go: Capsule Locks.
pub mod Lock
