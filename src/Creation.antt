-- ===== src/Creation.antt =====
-- libs/domain/environment.go: the creation of an Environment.
pub mod Model
pub mod Consistent
mod Tests
