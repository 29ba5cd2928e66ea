-- ===== src/FalseSharing/Broken.antt =====
-- cases/05-false-sharing/broken.cpp: where the counters lie, and `main`.
use systems_postmortems.Prelude.{ℕ, ◌+◌, ◌-◌, ◌*◌, Bool, not, Option, ltb}
use systems_postmortems.Prelude.Int.{ℤ, pos}
use systems_postmortems.Threads.{Program}
use systems_postmortems.FalseSharing.Memory.{Memory, worker_at, reset_at}
use systems_postmortems.FalseSharing.Run.{Doubles, throughput}

-- sizeof(std::atomic<std::uint64_t>), which is also its alignment
abbrev pub counter_size : ℕ
counter_size = 8

-- `&g_counters.value[i]`, for the address of `g_counters`.
unfoldable pub address : (base i : ℕ) → ℕ
address base i = base + counter_size * i

-- `worker`, the stores of `runWith` before the clock starts, and its threads, in memory.
unfoldable pub worker : (base : ℕ) → ℕ → ℕ → Memory → ℕ → Option (Memory × ℕ)
unfolding worker_at address
worker base = worker_at (address base)

unfoldable pub reset : (base : ℕ) → Memory → Memory
unfolding reset_at address
reset base = reset_at (address base) 4 0

unfoldable pub program : (base : ℕ) → ℕ → ℕ → Program Memory ℕ
unfolding worker
program base threads per = record {
  count = threads;
  entry = λ _. 0;
  access = λ index m i. worker base per index m i;
  finished = λ i. not (ltb i per);
}

-- What `main` prints and returns; `scaled` is the verdict.
pub record Report (Double : Type 0) : Type 0 where
  pub distance : ℕ
  pub one : Double
  pub four : Double
  pub ratio : Double
  pub scaled : Bool
  pub status : ℕ

-- For the microseconds that the clock measures of the two runs.
unfoldable pub main : (fp : Doubles) → (base : ℕ) → (one_us four_us : ℤ) → Report fp.Double
unfolding address
main fp base one_us four_us =
    let one = throughput fp 1 one_us in
    let four = throughput fp 4 four_us in
    record {
      distance = address base 1 - address base 0;
      one = one;
      four = four;
      ratio = fp.over four one;
      scaled = not (fp.less four (fp.times one (fp.of_int (pos 2))));
      status = 0;
    }
