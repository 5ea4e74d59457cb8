-- ===== src/Runs/Execution/Reads.antt =====
-- What a node of a run reads, in whatever order the steps of the run come.
pub mod Sources
pub mod Waves
pub mod Validity
pub mod Collecting
pub mod Invariant
pub mod Stable
pub mod Planned
