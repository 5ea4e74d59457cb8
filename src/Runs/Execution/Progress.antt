-- ===== src/Runs/Execution/Progress.antt =====
-- `_Progress` over the steps of a run.
pub mod Counts
pub mod Complete
pub mod Sequence
pub mod Planned
pub mod Finishing
