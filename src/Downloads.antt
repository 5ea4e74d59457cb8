-- ===== src/Downloads.antt =====
-- backend/tools/shared/download_queue.py and download_registry.py: model installs, one at a time.
pub mod Queue
pub mod Registry
mod Tests
mod RegistryTests
