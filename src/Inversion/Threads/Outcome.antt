-- ===== src/Inversion/Threads/Outcome.antt =====
-- What the programs of case 06 conclude from a run of their threads.
use systems_postmortems.Prelude.{ℕ, ◌+◌, ◌-◌, ◌/◌, ◌*◌, ◌≤◌, ◌≡◌, inl, inr, Bool, true, arith}
use systems_postmortems.Prelude.Int.{pos, ◌≤ℤ◌}
use systems_postmortems.Inversion.Calibrate.{Calibration}
use systems_postmortems.Inversion.Broken
use systems_postmortems.Inversion.Fixed
use systems_postmortems.Inversion.Threads.{Thread, LowPc, MainPc, System, initial}
use systems_postmortems.Inversion.Threads.Scheduler.{
  Protocol, plain, inherit, Reach, start, step, wakes, idles,
}
use systems_postmortems.Inversion.Threads.Exclusion.{Reach-IsExclusive}
use systems_postmortems.Inversion.Threads.Joins.{past_joins-rt_threads}
use systems_postmortems.Inversion.Threads.Inheritance.{worst_bounded}
use systems_postmortems.Inversion.Threads.Hog.{IsCaught, waited_out}

pub Reach-trans :
    {granted : Thread → Bool} {protocol : Protocol} {iterations cost : ℕ} {s t u : System}
    → Reach granted protocol iterations cost s t
    → Reach granted protocol iterations cost t u
    → Reach granted protocol iterations cost s u
Reach-trans a start = a
Reach-trans a (step r t time le p e) = step (Reach-trans a r) t time le p e
Reach-trans a (wakes r t e) = wakes (Reach-trans a r) t e
Reach-trans a (idles r time nobody) = idles (Reach-trans a r) time nobody

module _ (granted : Thread → Bool) (iterations : ℕ) (all : (t : Thread) → granted t ≡ true)
    (cost : ℕ) {clock sink : ℕ} (c : Calibration) where
  all_three :
      {protocol : Protocol} {s : System}
      → Reach granted protocol iterations cost (initial clock sink) s
      → s.starter_at ≡ MainPc.past_joins
      → s.rt_threads ≡ 3
  all_three r q = ground (
    arith,
    (past_joins-rt_threads granted iterations r q).3,
    all Thread.low,
    all Thread.medium,
    all Thread.high,
  )

  -- fixed.cpp, when all three requests are granted and `iterations` + 4 steps take at most 10 ms: past
  -- its joins it says that the wait is bounded and returns 0.
  pub inherit-bounded :
      (inherits pinned : Bool) {s : System}
      → (iterations + 4) * cost ≤ 10_000_000
      → Reach granted inherit iterations cost (initial clock sink) s
      → s.starter_at ≡ MainPc.past_joins
      → ((Fixed.judge inherits pinned c s.rt_threads s.worst).conclusion ≡ Fixed.bounded)
        × ((Fixed.judge inherits pinned c s.rt_threads s.worst).status ≡ 0)
  unfolding Fixed.judge
  inherit-bounded inherits pinned {s} fits r q =
      let three = all_three r q in
      let within = worst_bounded granted iterations all cost r in
      (ground (arith, three, within), ground (arith, three, within))

  -- broken.cpp, when all three requests are granted: if the control loop once waits for the lowest
  -- thread's critical section while the middle thread has a burst whose deadline is more than 10 ms
  -- after the loop asked, then past its joins it reports an inversion and returns 1.
  pub plain-inverted :
      (pinned : Bool) {s u : System} (cycle asked deadline : ℕ) (at : LowPc)
      → asked + 10_001_000 ≤ deadline
      → Reach granted plain iterations cost (initial clock sink) s
      → IsCaught cycle asked deadline at s
      → Reach granted plain iterations cost s u
      → u.starter_at ≡ MainPc.past_joins
      → (pos ((deadline - asked) / 1000) ≤ℤ u.worst)
        × ((Broken.judge pinned c u.rt_threads u.worst).conclusion ≡ Broken.inverted)
        × ((Broken.judge pinned c u.rt_threads u.worst).status ≡ 1)
  unfolding Broken.judge
  plain-inverted pinned {s} {u} cycle asked deadline at long r caught later q =
      let whole = Reach-trans r later in
      let three = all_three whole q in
      let ended = (past_joins-rt_threads granted iterations whole q).2 in
      let least : pos ((deadline - asked) / 1000) ≤ℤ u.worst =
        elim (waited_out granted iterations all cycle asked deadline cost at
          (Reach-IsExclusive granted iterations r) caught later) [
            | inl still ↦ absurd (ground (arith, ended, still.waiting))
            | inr (late, inl waits) ↦ absurd (ground (arith, ended, waits))
            | inr (late, inr (inl measures)) ↦ absurd (ground (arith, ended, measures))
            | inr (late, inr (inr least)) ↦ least
          ] in
      (least, ground (arith, three, least, long), ground (arith, three, least, long))
