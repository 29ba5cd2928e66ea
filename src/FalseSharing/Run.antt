-- ===== src/FalseSharing/Run.antt =====
-- `worker` and `runWith` of case 05, the same in both programs but for the spelling of a counter:
-- `value[index]` in broken.cpp, `[index].value` in fixed.cpp. A worker stands at its loop variable.
pub mod Exact
use systems_postmortems.Prelude.{
  ℕ, zero, suc, ◌+◌, ◌%◌, ◌^◌, Bool, not, Option, none, some, ltb, if◌then◌else◌,
}
use systems_postmortems.Prelude.Int.{ℤ, pos}
use systems_postmortems.Threads.{Program}
use systems_postmortems.Threads.Table.{store}

abbrev pub iterations : ℕ
iterations = 50_000_000

-- The four uint64_t by their index; no index of 4 or more is used.
abbrev pub Counters : Type 0
Counters = ℕ → ℕ

-- One `fetch_add` and the loop's `++i`.
unfoldable pub worker : ℕ → ℕ → Counters → ℕ → Option (Counters × ℕ)
worker per index m i =
    if ltb i per then some (store m index ((m index + 1) % 2 ^ 64), (i + 1) % 2 ^ 64) else none

-- The stores of 0 before the clock starts: counters `i` to `i + n - 1`.
unfoldable pub reset : ℕ → ℕ → Counters → Counters
reset zero i m = m
reset (suc n) i m = reset n (i + 1) (store m i 0)

-- From the first `emplace_back` to the last join, with `per` iterations.
unfoldable pub program : ℕ → ℕ → Program Counters ℕ
program threads per = record {
  count = threads;
  entry = λ _. 0;
  access = λ index m i. worker per index m i;
  finished = λ i. not (ltb i per);
}

-- The `double` operations that the source uses.
pub record Doubles : Type 1 where
  pub Double : Type 0
  pub of_int : ℤ → Double
  pub over : Double → Double → Double
  pub times : Double → Double → Double
  pub less : Double → Double → Bool

-- What `runWith` returns, for the microseconds that the clock measures.
unfoldable pub throughput : (fp : Doubles) → ℕ → ℤ → fp.Double
throughput fp threads elapsed_us =
    let million = fp.of_int (pos 1_000_000) in
    let seconds = fp.over (fp.of_int elapsed_us) million in
    let total = fp.times (fp.of_int (pos iterations)) (fp.of_int (pos threads)) in
    fp.over (fp.over total seconds) million
