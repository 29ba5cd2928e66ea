-- ===== src/Counter/Fixed/Exact.antt =====
-- The atomic counter is exact under every interleaving.
use systems_postmortems.Prelude.{
  ℕ, ◌+◌, ◌-◌, ◌*◌, ◌%◌, ◌^◌, ◌≤◌, ◌<◌, ◌≡◌, refl, ◌⊎◌, inl, inr, true, some, arith, Bool-cases,
}
use systems_postmortems.Threads.{System, Actor, Reach, step, returned}
use systems_postmortems.Threads.Table.{store, sum_over, sum_over-store, sum_over-const}
use systems_postmortems.Threads.Invariant.{Reach-inv, returned-finished, IsStable}
use systems_postmortems.Threads.Progress.{IsCounted, Reach-bound, Reach-progress}
use systems_postmortems.Counter.Fixed.{Metrics, worker, program, metrics, report}

-- The steps that a worker has yet to make.
left : ℕ → ℕ → ℕ
left per i = per - i

module _ (count per : ℕ) (small : per < 2 ^ 64) where
  record Counts (m : Metrics) (f : ℕ → ℕ) : Type 0 where
    total : m.requests_handled ≡ sum_over count f % 2 ^ 64
    within : (i : ℕ) → f i ≤ per

  Counts-worker :
      (i : ℕ) (m m' : Metrics) (f : ℕ → ℕ) (j : ℕ)
      → i < count
      → worker per m (f i) ≡ some (m', j)
      → Counts m f
      → Counts m' (store f i j)
  unfolding worker
  Counts-worker i m m' f j lt e c = record {
    total = ground (arith, c.total, sum_over-store (λ x. x) count f i j lt);
    within = λ k. ground (arith, c.within k);
  }

  Counts-Reach :
      {k : ℕ} {s : System Metrics ℕ} → Reach (program count per) metrics k s → Counts s.shared s.pcs
  unfolding program
  Counts-Reach r =
      Reach-inv (program count per) Counts metrics
        (record {
          total = omega (arith, sum_over-const count 0 (λ _. 0) (λ i lt. refl));
          within = λ i. omega arith;
        })
        Counts-worker r

  stable : IsStable (program count per)
  unfolding program worker
  stable i m w h = ground arith

  counted : IsCounted (program count per) (left per)
  unfolding program worker left
  counted = record {
    falls = λ i m m' w w' e. ground arith;
    live = λ i m w h. (
      (record { requests_handled = (m.requests_handled + 1) % 2 ^ 64 }, (w + 1) % 2 ^ 64),
      ground arith,
    );
  }

  all_rounds :
      {k : ℕ} {s : System Metrics ℕ}
      → Reach (program count per) metrics k s
      → returned (program count per) s ≡ true
      → (i : ℕ) → i < count
      → s.pcs i ≡ per
  unfolding program
  all_rounds {s} r h i lt =
      ground
        (arith, (Counts-Reach r).within i, returned-finished (program count per) stable r h i lt)

  -- For any number of workers and any rounds below 2 ^ 64: whenever `main` returns, under every
  -- interleaving, the count is what is expected, and it prints "exact" and returns 0.
  pub report-exact :
      {k : ℕ} {s : System Metrics ℕ}
      → Reach (program count per) metrics k s
      → returned (program count per) s ≡ true
      → report count per s.shared ≡ record {
        expected = (count * per) % 2 ^ 64;
        counted = (count * per) % 2 ^ 64;
        exact = true;
        status = 0;
      }
  unfolding report
  report-exact {s} r h =
      let total : s.shared.requests_handled ≡ (count * per) % 2 ^ 64 =
        omega (arith, (Counts-Reach r).total, sum_over-const count per s.pcs (all_rounds r h)) in
      ground (arith, total)

  -- Every run is at most as long as the starts, joins and increments together, and stops only where
  -- `main` has returned.
  pub exact_returns :
      {k : ℕ} {s : System Metrics ℕ}
      → Reach (program count per) metrics k s
      → (k ≤ 2 * count + count * per)
        × ((returned (program count per) s ≡ true)
            ⊎ ((a : Actor) × (t : System Metrics ℕ) × (step (program count per) a s ≡ some t)))
  unfolding program left
  exact_returns {k} {s} r = (
    omega (
      arith,
      Reach-bound (program count per) (left per) counted r,
      sum_over-const count per (λ _. per - 0) (λ i lt. omega arith),
    ),
    elim (Bool-cases (returned (program count per) s)) [
      | inl done ↦ inl done
      | inr more ↦ inr (Reach-progress (program count per) (left per) counted r more)
    ],
  )
