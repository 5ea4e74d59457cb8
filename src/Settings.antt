-- ===== src/Settings.antt =====
-- Settings of backend/tools/shared that hold more than one value.
pub mod EnabledModes
mod Tests
