-- ===== src/Inference.antt =====
-- backend/tools/inference: the client of the inference worker.
pub mod Client
pub mod Jobs
pub mod Starts
pub mod Steps
mod Tests
