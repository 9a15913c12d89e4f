-- ===== src/Profile.antt =====
-- libs/domain/profile.go: Profiles and their versions.
pub mod Model
pub mod Refs
pub mod Versions
pub mod Accepts
pub mod Heads
pub mod Tests
