-- ===== src/Counter/Broken/Range.antt =====
-- How far the plain counter of case 01 can fall short, and what `main` then reports.
use systems_postmortems.Prelude.{
  ℕ, ◌+◌, ◌-◌, ◌*◌, ◌^◌, ◌≤◌, ◌<◌, ◌≡◌, true, none, some, subst, arith, ℕ_discrete,
}
use systems_postmortems.Threads.{System, Reach, returned}
use systems_postmortems.Threads.Table.{store}
use systems_postmortems.Threads.Invariant.{Reach-inv, returned-finished, IsStable}
use systems_postmortems.Counter.Broken.{
  Metrics, Pc, head, loaded, worker, finished, program, metrics, Report, report,
}
use systems_postmortems.Counter.Broken.Bounds.{
  Bounds, rounds-le, stored-le, stored-lt, per-small, Bounds-worker, Bounds-start, Bounds-Reach,
}

module _ (count per : ℕ) (small : count * per < 2 ^ 64) where
  AllFinished : (ℕ → Pc) → Type 0
  AllFinished f = (i : ℕ) → i < count → finished per (f i) ≡ true

  -- The last store is of a worker's last round, which loads at least its own first increment.
  record Ends (m : Metrics) (f : ℕ → Pc) : Type 0 where
    bounds : Bounds count per small m f
    least : AllFinished f → 2 ≤ m.requests_handled

  Ends-worker :
      2 ≤ per
      → (i : ℕ) (m m' : Metrics) (f : ℕ → Pc) (w : Pc) → i < count
      → worker per m (f i) ≡ some (m', w)
      → Ends m f
      → Ends m' (store f i w)
  unfolding worker AllFinished
  Ends-worker two i m m' f w lt e h = record {
    bounds = Bounds-worker count per small i m m' f w lt e h.bounds;
    least = λ all. ground (
      arith,
      all i lt,
      h.bounds.fresh i lt,
      h.bounds.upper,
      stored-lt count per small i h.bounds lt,
      per-small count per small i lt,
    );
  }

  stable : IsStable (program count per)
  unfolding program worker
  stable i m (head j) h = ground arith
  stable i m (loaded j v) h = ground arith

  all_finished :
      {k : ℕ} {s : System Metrics Pc}
      → Reach (program count per) metrics k s
      → returned (program count per) s ≡ true
      → AllFinished s.pcs
  unfolding program AllFinished
  all_finished r h = returned-finished (program count per) stable r h

  Ends-Reach :
      0 < count
      → 2 ≤ per
      → {k : ℕ} {s : System Metrics Pc} → Reach (program count per) metrics k s
      → Ends s.shared s.pcs
  unfolding program AllFinished
  Ends-Reach pos two r =
      Reach-inv (program count per) Ends metrics
        (record { bounds = Bounds-start count per small; least = λ all. ground (arith, all 0 pos) })
        (Ends-worker two) r

  -- With at least one worker, at least two rounds each and a product below 2 ^ 64: whenever `main`
  -- returns, under every interleaving, the count is at least 2 and at most what is expected.
  pub counted_range :
      0 < count
      → 2 ≤ per
      → {k : ℕ} {s : System Metrics Pc} → Reach (program count per) metrics k s
      → returned (program count per) s ≡ true
      → (2 ≤ s.shared.requests_handled) × (s.shared.requests_handled ≤ count * per)
  counted_range pos two {s} r h = (
    (Ends-Reach pos two r).least (all_finished r h),
    omega (
      arith,
      (Bounds-Reach count per small r).upper,
      stored-le count per small s.pcs (λ i lt.
          rounds-le count per small s.pcs i _ ((Bounds-Reach count per small r).fresh i lt)),
    ),
  )

-- What `main` reports after such a run: nothing lost and status 0, or a positive loss that leaves at
-- least 2 counted, and status 1.
module _ (count per : ℕ) (small : count * per < 2 ^ 64) where
  pub data IsLoss (m : Metrics) : Report → Type 0 where
    none_lost :
        m.requests_handled ≡ count * per
        → IsLoss m
            (record { expected = count * per; counted = count * per; lost = none; status = 0 })
    some_lost :
        (d : ℕ)
        → 0 < d
        → 2 ≤ m.requests_handled
        → m.requests_handled + d ≡ count * per
        → IsLoss m (record {
          expected = count * per;
          counted = m.requests_handled;
          lost = some d;
          status = 1;
        })

  -- With at least one worker, at least two rounds each and a product below 2 ^ 64: whenever `main`
  -- returns, either every request was counted, it reports no loss and returns 0, or at least 2 but
  -- not all were counted, it reports exactly the difference as lost and returns 1.
  pub report-IsLoss :
      0 < count
      → 2 ≤ per
      → {k : ℕ} {s : System Metrics Pc} → Reach (program count per) metrics k s
      → returned (program count per) s ≡ true
      → IsLoss s.shared (report count per s.shared)
  unfolding report
  report-IsLoss pos two {s} r h =
      let n = s.shared.requests_handled in
      let range = counted_range count per small pos two r h in
      elim (ℕ_discrete n (count * per)) [
        | yes all ↦
            let q : record {
              expected = count * per;
              counted = count * per;
              lost = none;
              status = 0;
            }
                ≡ report count per s.shared =
              ground arith in
            subst (IsLoss s.shared) q (none_lost all)
        | no short ↦
            let q : record {
              expected = count * per;
              counted = n;
              lost = some (count * per - n);
              status = 1;
            }
                ≡ report count per s.shared =
              ground (arith, range.1) in
            subst (IsLoss s.shared) q (
              some_lost (count * per - n) (omega (arith, range.1)) range.0 (omega (arith, range.1)))
      ]
