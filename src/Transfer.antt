-- ===== src/Transfer.antt =====
-- Case 02, cases/02-lock-order-inversion: two transfers in opposite directions, each of which takes the
-- locks of two accounts.
pub mod Broken
pub mod Fixed
mod Tests
