-- ===== src/Counter/Broken.antt =====
-- cases/01-dropped-counters/broken.cpp: a plain counter. `++` is a load and a store, and other workers
-- run between them. (The data race is undefined behaviour; this is what the machine does with it.)
pub mod Bounds
pub mod Drain
pub mod Extremes
pub mod Range
pub mod Returns
pub mod Schedules
use systems_postmortems.Prelude.{
  ℕ, ◌+◌, ◌-◌, ◌*◌, ◌%◌, ◌^◌, Bool, false, not, Option, none, some, ltb, ◌==◌, if◌then◌else◌,
}
use systems_postmortems.Threads.{Program}

abbrev pub workers : ℕ
workers = 4

abbrev pub per_worker : ℕ
per_worker = 200_000

pub record Metrics : Type 0 where
  pub requests_handled : ℕ  -- uint64_t

-- Where a worker stands: at the test of its loop, or between the load and the store.
pub data Pc : Type 0 where
  head : (i : ℕ) → Pc
  loaded : (i value : ℕ) → Pc

unfoldable pub worker : ℕ → Metrics → Pc → Option (Metrics × Pc)
worker per m (head i) = if ltb i per then some (m, loaded i m.requests_handled) else none
worker per m (loaded i value) =
    some (record { requests_handled = (value + 1) % 2 ^ 64 }, head ((i + 1) % 2 ^ 64))

abbrev pub finished : ℕ → Pc → Bool
finished per (head i) = not (ltb i per)
finished per (loaded i value) = false

-- `main` up to the last join, for `count` workers of `per` rounds.
unfoldable pub program : ℕ → ℕ → Program Metrics Pc
program count per = record {
  count = count;
  entry = λ _. head 0;
  access = λ _ m w. worker per m w;
  finished = finished per;
}

abbrev pub metrics : Metrics
metrics = record { requests_handled = 0 }

-- What `main` prints and returns after the joins; the percentage is left out.
pub record Report : Type 0 where
  pub expected : ℕ
  pub counted : ℕ
  pub lost : Option ℕ
  pub status : ℕ

unfoldable pub report : ℕ → ℕ → Metrics → Report
report count per m =
    let expected = (count * per) % 2 ^ 64 in
    let counted = m.requests_handled in
    if not (counted == expected)
    then record {
      expected = expected;
      counted = counted;
      lost = some ((expected + 2 ^ 64 - counted) % 2 ^ 64);
      status = 1;
    }
    else record { expected = expected; counted = counted; lost = none; status = 0 }
