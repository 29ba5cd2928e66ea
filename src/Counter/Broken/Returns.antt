-- ===== src/Counter/Broken/Returns.antt =====
-- Termination of case 01's plain counter.
use systems_postmortems.Prelude.{
  ℕ, ◌+◌, ◌-◌, ◌*◌, ◌%◌, ◌^◌, ◌≤◌, ◌<◌, ◌≡◌, refl, ◌⊎◌, inl, inr, true, false, some, arith,
  Bool-cases,
}
use systems_postmortems.Threads.{System, Actor, Reach, step, returned}
use systems_postmortems.Threads.Table.{sum_over-const}
use systems_postmortems.Threads.Progress.{IsCounted, Reach-bound, Reach-progress}
use systems_postmortems.Counter.Broken.{
  Metrics, Pc, head, loaded, worker, finished, program, metrics,
}

-- The steps that a worker has yet to make.
left : ℕ → Pc → ℕ
left per (head i) = 2 * (per - i)
left per (loaded i value) = 2 * (per - (i + 1) % 2 ^ 64) + 1

module _ (count per : ℕ) (small : per < 2 ^ 64) where
  falls :
      (i : ℕ) (m m' : Metrics) (w w' : Pc)
      → worker per m w ≡ some (m', w')
      → left per w' + 1 ≡ left per w
  unfolding worker left
  falls i m m' w w' e = ground arith

  live :
      (m : Metrics) (w : Pc)
      → finished per w ≡ false
      → (r : Metrics × Pc) × (worker per m w ≡ some r)
  unfolding worker
  live m (head i) h = ((m, loaded i m.requests_handled), ground arith)
  live m (loaded i v) h = (_, refl)

  counted : IsCounted (program count per) (left per)
  unfolding program
  counted = record { falls = falls; live = λ i m w h. live m w h }

  -- For rounds below 2 ^ 64: every run is at most as long as the starts, joins, loads and stores
  -- together, and stops only where `main` has returned.
  pub racy_returns :
      {k : ℕ} {s : System Metrics Pc}
      → Reach (program count per) metrics k s
      → (k ≤ 2 * count + count * (2 * per))
        × ((returned (program count per) s ≡ true)
            ⊎ ((a : Actor) × (t : System Metrics Pc) × (step (program count per) a s ≡ some t)))
  unfolding program left
  racy_returns {s} r = (
    omega (
      arith,
      Reach-bound (program count per) (left per) counted r,
      sum_over-const count (2 * per) (λ _. 2 * (per - 0)) (λ i lt. omega arith),
    ),
    elim (Bool-cases (returned (program count per) s)) [
      | inl done ↦ inl done
      | inr more ↦ inr (Reach-progress (program count per) (left per) counted r more)
    ],
  )
