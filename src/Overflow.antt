-- ===== src/Overflow.antt =====
-- Case 04, cases/04-overflow-removes-check: does a write of `length` bytes at `offset` fit in the
-- buffer? An `int` is an integer of `Prelude.Int`; `none` is undefined behaviour.
pub mod Semantics
pub mod Broken
pub mod Fixed
pub mod Builds
mod Tests
