-- ===== src/Dependency.antt =====
-- dependency/: the versions that a requirement allows, and the advisories that it may meet.
pub mod Versions
pub mod Advisories
pub mod Vex
mod Tests
