-- ===== src/Inversion.antt =====
-- Case 06, cases/06-priority-inversion: a lock shared between the highest and the lowest of three
-- real-time threads on one processor.
pub mod Priority
pub mod Work
pub mod Calibrate
pub mod Control
pub mod Broken
pub mod Fixed
pub mod Verdict
pub mod Threads
mod Tests
