-- ===== src/Abstract.antt =====
-- Abstract interpretation of values (abstract/).
pub mod Value
pub mod Constants
mod Tests
