-- ===== src/Dangling.antt =====
-- Case 03, a reference held across a reallocation: cases/03-dangling-reference.
pub mod Vector
pub mod Sensors
pub mod Broken
pub mod Fixed
pub mod Outcome
mod Tests
