-- ===== src/Counter.antt =====
-- Case 01, cases/01-dropped-counters: four workers count requests in one shared number.
pub mod Broken
pub mod Fixed
mod Tests
