-- ===== src/Counter/Tests.antt =====
-- Runs of case 01 in a given order, and its theorems at concrete inputs.
use systems_postmortems.Prelude.{
  ℕ, ◌+◌, ◌*◌, ◌%◌, ◌^◌, ◌≤◌, ◌≡◌, ◌↔◌, refl, ◌⊎◌, true, some, none, arith,
}
use systems_postmortems.Threads.{System, Actor, main, worker, Reach, start, later, step, returned}
use systems_postmortems.Threads.Table.{store}
use systems_postmortems.Counter.Fixed
use systems_postmortems.Counter.Fixed.Exact
use systems_postmortems.Counter.Broken
use systems_postmortems.Counter.Broken.{per_worker, workers}
use systems_postmortems.Counter.Broken.Range
use systems_postmortems.Counter.Broken.Returns
use systems_postmortems.Counter.Broken.Range.{IsLoss}
use systems_postmortems.Counter.Broken.Extremes
use systems_postmortems.Counter.Broken.Extremes.{Counts}

-- One worker of two rounds, from the start to the return.
abbrev ended : System Fixed.Metrics ℕ
ended = record {
  shared = record { requests_handled = 2 };
  spawned = 1;
  joined = 1;
  pcs = store (store (λ _. 0) 0 1) 0 2;
}

ended-Reach : Reach (Fixed.program 1 2) Fixed.metrics 4 ended
unfolding Fixed.program Fixed.worker step
ended-Reach =
    later (later (later (later start main refl) (worker 0) refl) (worker 0) refl) main refl

ended-returned : returned (Fixed.program 1 2) ended ≡ true
unfolding Fixed.program
ended-returned = refl

report-exact_example :
    Fixed.report 1 2 ended.shared
    ≡ record { expected = (1 * 2) % 2 ^ 64; counted = (1 * 2) % 2 ^ 64; exact = true; status = 0 }
report-exact_example = Exact.report-exact 1 2 (omega arith) ended-Reach ended-returned

exact_returns_example :
    (4 ≤ 2 * 1 + 1 * 2)
    × ((returned (Fixed.program 1 2) ended ≡ true)
        ⊎ ((a : Actor) × (t : System Fixed.Metrics ℕ) × (step (Fixed.program 1 2) a ended
              ≡ some t)))
exact_returns_example = Exact.exact_returns 1 2 (omega arith) ended-Reach

-- The worst run of the program's four workers.
worst : Counts workers per_worker (omega arith) 2
worst =
    Extremes.attained workers per_worker (omega arith) 2 (omega arith) (omega arith) (omega arith)
      (omega arith)

counted_range_example :
    (2 ≤ worst.1.shared.requests_handled) × (worst.1.shared.requests_handled ≤ workers * per_worker)
counted_range_example =
    Range.counted_range workers per_worker (omega arith) (omega arith) (omega arith) worst.2 worst.3

report-IsLoss_example :
    IsLoss workers per_worker
      (omega arith)
      worst.1.shared
      (Broken.report workers per_worker worst.1.shared)
report-IsLoss_example =
    Range.report-IsLoss workers per_worker (omega arith) (omega arith) (omega arith) worst.2 worst.3

racy_returns_example :
    (worst.0 ≤ 2 * workers + workers * (2 * per_worker))
    × ((returned (Broken.program workers per_worker) worst.1 ≡ true)
        ⊎ ((a : Actor) × (t : System Broken.Metrics Broken.Pc) × (step
                (Broken.program workers per_worker)
                a
                worst.1
              ≡ some t)))
racy_returns_example = Returns.racy_returns workers per_worker (omega arith) worst.2

counts_iff_example :
    Counts workers per_worker (omega arith) 634_821
    ↔ ((2 ≤ 634_821) × (634_821 ≤ workers * per_worker))
counts_iff_example =
    Extremes.counts_iff workers per_worker (omega arith) 634_821 (omega arith) (omega arith)

report_lost :
    Broken.report workers per_worker (record { requests_handled = 2 })
    ≡ record { expected = 800_000; counted = 2; lost = some 799_998; status = 1 }
unfolding Broken.report
report_lost = refl

report_exact :
    Broken.report workers per_worker (record { requests_handled = 800_000 })
    ≡ record { expected = 800_000; counted = 800_000; lost = none; status = 0 }
unfolding Broken.report
report_exact = refl
