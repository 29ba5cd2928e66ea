-- ===== src/FalseSharing/Run/Exact.antt =====
-- Each worker's counter has its own increments, under every interleaving, and every run ends.
use systems_postmortems.Prelude.{
  ℕ, zero, suc, ◌+◌, ◌-◌, ◌*◌, ◌%◌, ◌^◌, ◌≤◌, ◌<◌, ◌≡◌, refl, ◌⊎◌, inl, inr, true, some, arith,
  Bool-cases, ℕ_discrete,
}
use systems_postmortems.Threads.{System, Actor, Reach, step, returned}
use systems_postmortems.Threads.Table.{store, sum_over-const}
use systems_postmortems.Threads.Invariant.{Reach-inv, returned-finished, IsStable}
use systems_postmortems.Threads.Progress.{IsCounted, Reach-bound, Reach-progress}
use systems_postmortems.FalseSharing.Run.{Counters, worker, reset, program}

-- The steps that a worker has yet to make.
left : ℕ → ℕ → ℕ
left per i = per - i

reset-outside : (n i : ℕ) (m : Counters) (j : ℕ) → j < i → reset n i m j ≡ m j
unfolding reset
reset-outside zero i m j h = refl
reset-outside (suc n) i m j h =
    ground (arith, reset-outside n (i + 1) (store m i 0) j (omega arith))

-- The loop before the run leaves 0 in each of its counters.
reset-zero : (n i : ℕ) (m : Counters) (j : ℕ) → i ≤ j → j < i + n → reset n i m j ≡ 0
unfolding reset
reset-zero zero i m j h lt = absurd (omega arith)
reset-zero (suc n) i m j h lt = elim (ℕ_discrete i j) [
  | yes e ↦ ground (arith, reset-outside n (i + 1) (store m i 0) j (omega arith))
  | no ne ↦ reset-zero n (i + 1) (store m i 0) j (ground arith) (omega arith)
]

module _ (threads per : ℕ) (few : threads ≤ 4) (small : per < 2 ^ 64) (before : Counters) where
  abbrev cleared : Counters
  cleared = reset 4 0 before

  record Counts (m : Counters) (f : ℕ → ℕ) : Type 0 where
    own : (i : ℕ) → i < 4 → m i ≡ f i
    within : (i : ℕ) → f i ≤ per
    idle : (i : ℕ) → threads ≤ i → f i ≡ 0

  Counts-worker :
      (i : ℕ) (m m' : Counters) (f : ℕ → ℕ) (j : ℕ)
      → i < threads
      → worker per i m (f i) ≡ some (m', j)
      → Counts m f
      → Counts m' (store f i j)
  unfolding worker
  Counts-worker i m m' f j lt e c = record {
    own = λ k h. ground (arith, c.own k h, c.own i (omega arith), c.within i);
    within = λ k. ground (arith, c.within k);
    idle = λ k h. ground (arith, c.idle k h);
  }

  Counts-Reach :
      {k : ℕ} {s : System Counters ℕ}
      → Reach (program threads per) cleared k s
      → Counts s.shared s.pcs
  unfolding program
  Counts-Reach r =
      Reach-inv (program threads per) Counts cleared
        (record {
          own = λ i h. reset-zero 4 0 before i (omega arith) (omega arith);
          within = λ i. omega arith;
          idle = λ i h. refl;
        })
        Counts-worker r

  stable : IsStable (program threads per)
  unfolding program worker
  stable i m w h = ground arith

  counted : IsCounted (program threads per) (left per)
  unfolding program worker left
  counted = record {
    falls = λ i m m' w w' e. ground arith;
    live = λ i m w h. ((store m i ((m i + 1) % 2 ^ 64), (w + 1) % 2 ^ 64), ground arith);
  }

  -- For up to four threads and fewer than 2 ^ 64 iterations: whenever the joins return, under every
  -- interleaving and whatever the counters were before, the counter of each thread is the number of
  -- iterations, and the other counters are 0.
  pub run-exact :
      {k : ℕ} {s : System Counters ℕ}
      → Reach (program threads per) cleared k s
      → returned (program threads per) s ≡ true
      → ((i : ℕ) → i < threads → s.shared i ≡ per)
        × ((i : ℕ) → threads ≤ i → i < 4 → s.shared i ≡ 0)
  unfolding program
  run-exact {s} r h =
      let c = Counts-Reach r in
      (
        λ i lt. ground (
          arith,
          c.within i,
          c.own i (omega arith),
          returned-finished (program threads per) stable r h i lt,
        ),
        λ i ge lt. omega (arith, c.own i lt, c.idle i ge),
      )

  -- For up to four threads and fewer than 2 ^ 64 iterations, every run is at most as long as the starts, joins and increments
  -- together, and stops only where the joins have returned.
  pub run_returns :
      {k : ℕ} {s : System Counters ℕ}
      → Reach (program threads per) cleared k s
      → (k ≤ 2 * threads + threads * per)
        × ((returned (program threads per) s ≡ true)
            ⊎ ((a : Actor) × (t : System Counters ℕ) × (step (program threads per) a s ≡ some t)))
  unfolding program left
  run_returns {k} {s} r = (
    omega (
      arith,
      Reach-bound (program threads per) (left per) counted r,
      sum_over-const threads per (λ _. per - 0) (λ i lt. omega arith),
    ),
    elim (Bool-cases (returned (program threads per) s)) [
      | inl done ↦ inl done
      | inr more ↦ inr (Reach-progress (program threads per) (left per) counted r more)
    ],
  )
