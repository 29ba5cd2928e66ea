-- ===== src/Counter/Fixed.antt =====
-- cases/01-dropped-counters/fixed.cpp: an atomic counter. A worker stands at its loop variable `i`.
pub mod Exact
use systems_postmortems.Prelude.{
  ℕ, ◌+◌, ◌*◌, ◌%◌, ◌^◌, ◌≡◌, Bool, not, Option, none, some, ltb, ◌==◌, if◌then◌else◌,
}
use systems_postmortems.Threads.{Program}

abbrev pub workers : ℕ
workers = 4

abbrev pub per_worker : ℕ
per_worker = 200_000

pub record Metrics : Type 0 where
  pub requests_handled : ℕ  -- uint64_t

-- One `fetch_add` and the loop's `++i`.
unfoldable pub worker : ℕ → Metrics → ℕ → Option (Metrics × ℕ)
worker per m i =
    if ltb i per
    then some (record { requests_handled = (m.requests_handled + 1) % 2 ^ 64 }, (i + 1) % 2 ^ 64)
    else none

-- `main` up to the last join, for `count` workers of `per` rounds.
unfoldable pub program : ℕ → ℕ → Program Metrics ℕ
program count per = record {
  count = count;
  entry = λ _. 0;
  access = λ _ m i. worker per m i;
  finished = λ i. not (ltb i per);
}

abbrev pub metrics : Metrics
metrics = record { requests_handled = 0 }

-- What `main` prints and returns after the joins.
pub record Report : Type 0 where
  pub expected : ℕ
  pub counted : ℕ
  pub exact : Bool
  pub status : ℕ

unfoldable pub report : ℕ → ℕ → Metrics → Report
report count per m =
    let expected = (count * per) % 2 ^ 64 in
    let counted = m.requests_handled in
    record {
      expected = expected;
      counted = counted;
      exact = counted == expected;
      status = if counted == expected then 0 else 1;
    }
