-- ===== src/Config.antt =====
-- backend/configuration: bringing saved settings to the current schema.
pub mod Layers
pub mod Loader
pub mod Migrations
pub mod Models
pub mod Service
mod Tests
