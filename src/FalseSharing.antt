-- ===== src/FalseSharing.antt =====
-- Case 05, four counters in memory and the throughput of their workers: cases/05-false-sharing.
pub mod Run
pub mod Memory
pub mod Broken
pub mod Fixed
pub mod Same
pub mod Exact
pub mod Lines
pub mod Coherence
pub mod Verdict
mod Tests
