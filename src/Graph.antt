-- ===== src/Graph.antt =====
-- The workflow graph of backend/graph.
pub mod Schema
pub mod Scheduler
pub mod Devices
pub mod Scope
pub mod Order
pub mod Compiler
pub mod Migrations
pub mod Issues
pub mod Parameters
pub mod Ports
pub mod Batches
pub mod Connections
pub mod Validation
pub mod Planning
mod Tests
mod ScopeTests
pub mod ValidationTests
mod MigrationTests
