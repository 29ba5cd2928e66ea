-- ===== src/Inversion/Control.antt =====
-- `highPriorityControl` of case 06, the same text in both programs: the waits that its cycles measure,
-- and the largest so far.
pub mod Worst
use systems_postmortems.Prelude.{ℕ, zero, suc, ◌+◌, if◌then◌else◌}
use systems_postmortems.Prelude.Int.{ℤ, ltb_ℤ}

abbrev pub cycles : ℕ
cycles = 600

-- `waits cycle` is what the clock measures between asking for the lock and having it, in
-- microseconds; `worst` is g_worst_block_us.
unfoldable pub one_cycle : ℤ → ℤ → ℤ
one_cycle blocked worst = if ltb_ℤ worst blocked then blocked else worst

-- The loop from cycle `i`, with `n` cycles to go.
unfoldable pub control_loop : ℕ → ℕ → (ℕ → ℤ) → ℤ → ℤ
unfolding one_cycle
control_loop zero i waits worst = worst
control_loop (suc n) i waits worst = control_loop n (i + 1) waits (one_cycle (waits i) worst)

unfoldable pub control : (ℕ → ℤ) → ℤ → ℤ
unfolding control_loop
control waits worst = control_loop cycles 0 waits worst
