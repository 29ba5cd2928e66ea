-- ===== src/Inversion/Work.antt =====
-- `spinWork` of case 06, the same text in both programs: a chain of `iterations` steps from the sink.
pub mod Skip
use systems_postmortems.Prelude.{ℕ, zero, suc, ◌+◌, ◌*◌, ◌%◌, ◌^◌, ◌==◌, if◌then◌else◌}

-- `x | 1ULL`
abbrev pub or_one : ℕ → ℕ
or_one x = if x % 2 == 0 then x + 1 else x

abbrev pub multiplier : ℕ
multiplier = 6364136223846793005

abbrev pub increment : ℕ
increment = 1442695040888963407

-- One round of the loop, on uint64_t.
unfoldable pub mix : ℕ → ℕ
mix state = (state * multiplier + increment) % 2 ^ 64

unfoldable pub spin : ℕ → ℕ → ℕ
unfolding mix
spin zero state = state
spin (suc n) state = spin n (mix state)

-- From the value of g_sink before to that after.
unfoldable pub spin_work : ℕ → ℕ → ℕ
unfolding spin
spin_work iterations sink = spin iterations (or_one sink)
