-- ===== src/Runs.antt =====
-- The queue of workflow runs, backend/graph/executor.py.
pub mod Manager
pub mod Dispatch
pub mod Positions
pub mod History
pub mod Cancellation
pub mod Steps
pub mod Values
pub mod Execution
pub mod Retry
mod RetryTests
mod Tests
