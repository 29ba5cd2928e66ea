-- ===== src/FalseSharing/Fixed.antt =====
-- cases/05-false-sharing/fixed.cpp: where the padded counters lie, and `main`.
use systems_postmortems.Prelude.{ℕ, ◌+◌, ◌-◌, ◌*◌, not, Option, ltb}
use systems_postmortems.Prelude.Int.{ℤ, pos}
use systems_postmortems.Threads.{Program}
use systems_postmortems.FalseSharing.Memory.{Memory, worker_at, reset_at}
use systems_postmortems.FalseSharing.Run.{Doubles, throughput}
use systems_postmortems.FalseSharing.Broken.{counter_size, Report}

abbrev pub cache_line : ℕ
cache_line = 64

-- The array behind the counter.
abbrev pub padding : ℕ
padding = cache_line - counter_size

-- sizeof(PaddedCounter): the counter and its padding, which its static_assert says is a whole line.
abbrev pub padded_size : ℕ
padded_size = counter_size + padding

-- `&g_counters[i]`, for the address of `g_counters`; the counter comes first in it.
unfoldable pub address : (base i : ℕ) → ℕ
address base i = base + padded_size * i

-- `worker`, the stores of `runWith` before the clock starts, and its threads, in memory.
unfoldable pub worker : (base : ℕ) → ℕ → ℕ → Memory → ℕ → Option (Memory × ℕ)
unfolding worker_at address
worker base = worker_at (address base)

unfoldable pub reset : (base : ℕ) → Memory → Memory
unfolding reset_at address
reset base = reset_at (address base) 4 0

unfoldable pub program : (base : ℕ) → ℕ → ℕ → Program Memory ℕ
unfolding worker
program base threads per = record {
  count = threads;
  entry = λ _. 0;
  access = λ index m i. worker base per index m i;
  finished = λ i. not (ltb i per);
}

unfoldable pub main : (fp : Doubles) → (base : ℕ) → (one_us four_us : ℤ) → Report fp.Double
unfolding address
main fp base one_us four_us =
    let one = throughput fp 1 one_us in
    let four = throughput fp 4 four_us in
    record {
      distance = address base 1 - address base 0;
      one = one;
      four = four;
      ratio = fp.over four one;
      scaled = fp.less (fp.times one (fp.of_int (pos 2))) four;
      status = 0;
    }
