-- ===== src/Component.antt =====
-- libs/domain/component.go: the Components of a Capsule.
pub mod Model
pub mod Accepts
mod Tests
