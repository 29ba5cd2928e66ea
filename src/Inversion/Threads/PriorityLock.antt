-- ===== src/Inversion/Threads/PriorityLock.antt =====
-- The threads of cases/06-priority-inversion/fixed.cpp, which hold the mutex in a PriorityLock.
use mathlib.Core.Option
use systems_postmortems.Prelude.{
  ℕ, zero, suc, ◌+◌, ◌-◌, ◌/◌, ◌≡◌, refl, Bool, Bool-cases, inl, inr, false, Option, none, some,
  ltb, if◌then◌else◌, arith,
}
use systems_postmortems.Prelude.Int.{pos}
use systems_postmortems.Inversion.Work.{or_one, mix}
use systems_postmortems.Inversion.Control.{one_cycle}
use systems_postmortems.Inversion.Threads
use systems_postmortems.Inversion.Threads.{
  Thread, starter, low, medium, high, LowPc, HogPc, ControlPc, MainPc, System, when, is_free,
  low_over, medium_over, high_over, count, unborn, entry, test, acquire, release, doze, ended,
  asleep, spin, begin_busy, busy, measure, create_low, create_medium, create_high, join_high, stop,
  join_low, join_medium, past_joins,
}

-- kHogBurst, kHogIdle and kHolderIdle, in nanoseconds.
abbrev hog_burst : ℕ
hog_burst = 10_000_000

abbrev hog_idle : ℕ
hog_idle = 3_000_000

abbrev holder_idle : ℕ
holder_idle = 30_000_000

-- The sleep of each cycle of `highPriorityControl`, and that of `main` before it starts the thread.
abbrev control_idle : ℕ
control_idle = 2_000_000

abbrev head_start : ℕ
head_start = 50_000_000

-- The loop of `highPriorityControl` ends at this cycle.
abbrev cycles : ℕ
cycles = 600

-- The loop of `busyFor`.
abbrev busy_for : (deadline clock : ℕ) → HogPc
busy_for deadline clock = if ltb clock deadline then HogPc.busy deadline else HogPc.doze

-- pthread_mutex_lock in the constructor and pthread_mutex_unlock in the destructor.
unfoldable pub lock : Thread → System → Option System
unfolding when
lock t s = when (is_free s.owner) (record s { owner = some t })

unfoldable pub unlock : System → System
unlock s = record s { owner = none }

module _ (granted : Thread → Bool) (iterations : ℕ) where
  unfoldable pub low_step : LowPc → System → Option System
  unfolding mix lock unlock
  low_step unborn s = none
  low_step entry s =
      some (record s { low_at = test; rt_threads = count (granted low) s.rt_threads })
  low_step test s = some (record s { low_at = if s.running then acquire else ended })
  low_step acquire s =
      Option.map {A = System} (λ u. record u { low_at = spin iterations (or_one u.sink) })
        (lock low s)
  low_step (spin zero state) s = some (record s { sink = state; low_at = release })
  low_step (spin (suc n) state) s = some (record s { low_at = spin n (mix state) })
  low_step release s = some (record (unlock s) { low_at = doze })
  low_step doze s = some (record s { low_at = asleep (s.clock + holder_idle) })
  low_step (asleep wake) s = none
  low_step ended s = none

  unfoldable pub medium_step : HogPc → System → Option System
  medium_step unborn s = none
  medium_step entry s =
      some (record s { medium_at = test; rt_threads = count (granted medium) s.rt_threads })
  medium_step test s = some (record s { medium_at = if s.running then begin_busy else ended })
  medium_step begin_busy s = some (record s { medium_at = busy (s.clock + hog_burst) })
  medium_step (busy deadline) s = some (record s { medium_at = busy_for deadline s.clock })
  medium_step doze s = some (record s { medium_at = asleep (s.clock + hog_idle) })
  medium_step (asleep wake) s = none
  medium_step ended s = none

  unfoldable pub high_step : ControlPc → System → Option System
  unfolding one_cycle lock unlock
  high_step unborn s = none
  high_step entry s =
      some (record s { high_at = test 0; rt_threads = count (granted high) s.rt_threads })
  high_step (test i) s =
      some (record s { high_at = if ltb i cycles then acquire i s.clock else ended })
  high_step (acquire i asked) s =
      Option.map {A = System} (λ u. record u { high_at = measure i asked }) (lock high s)
  high_step (measure i asked) s =
      some (record s {
        worst = one_cycle (pos ((s.clock - asked) / 1000)) s.worst;
        high_at = release i;
      })
  high_step (release i) s = some (record (unlock s) { high_at = doze i })
  high_step (doze i) s = some (record s { high_at = asleep i (s.clock + control_idle) })
  high_step (asleep i wake) s = none
  high_step ended s = none

  -- `main` of fixed.cpp, from the creation of the first thread to its last join.
  unfoldable pub starter_step : MainPc → System → Option System
  unfolding when
  starter_step create_low s = some (record s { starter_at = create_medium; low_at = entry })
  starter_step create_medium s = some (record s { starter_at = doze; medium_at = entry })
  starter_step doze s = some (record s { starter_at = asleep (s.clock + head_start) })
  starter_step (asleep wake) s = none
  starter_step create_high s = some (record s { starter_at = join_high; high_at = entry })
  starter_step join_high s = when (high_over s.high_at) (record s { starter_at = stop })
  starter_step stop s = some (record s { running = false; starter_at = join_low })
  starter_step join_low s = when (low_over s.low_at) (record s { starter_at = join_medium })
  starter_step join_medium s = when (medium_over s.medium_at) (record s { starter_at = past_joins })
  starter_step past_joins s = none

  unfoldable pub execute : Thread → System → Option System
  unfolding low_step medium_step high_step starter_step
  execute starter s = starter_step s.starter_at s
  execute low s = low_step s.low_at s
  execute medium s = medium_step s.medium_at s
  execute high s = high_step s.high_at s

  same_low : (p : LowPc) (s : System) → low_step p s ≡ Threads.low_step granted iterations p s
  unfolding Threads.low_step low_step
  same_low LowPc.acquire s = elim (Bool-cases (is_free s.owner)) [
    | inl free ↦ rw free refl
    | inr taken ↦ rw taken refl
  ]
  same_low (LowPc.spin zero state) s = refl
  same_low (LowPc.spin (suc n) state) s = refl
  same_low LowPc.unborn s = refl
  same_low p s = refl

  same_medium :
      (p : HogPc) (s : System) → medium_step p s ≡ Threads.medium_step granted iterations p s
  unfolding Threads.medium_step medium_step
  same_medium p s = ground arith

  same_high :
      (p : ControlPc) (s : System) → high_step p s ≡ Threads.high_step granted iterations p s
  unfolding Threads.high_step high_step
  same_high (ControlPc.acquire i asked) s = elim (Bool-cases (is_free s.owner)) [
    | inl free ↦ rw free refl
    | inr taken ↦ rw taken refl
  ]
  same_high ControlPc.unborn s = refl
  same_high p s = refl

  same_starter :
      (p : MainPc) (s : System) → starter_step p s ≡ Threads.starter_step granted iterations p s
  unfolding Threads.starter_step starter_step
  same_starter p s = ground arith

  -- Whatever was granted, every thread of fixed.cpp makes in every state the step, or none, that the
  -- thread of broken.cpp makes, which holds the mutex in a std::lock_guard.
  pub same_steps : (t : Thread) (s : System) → execute t s ≡ Threads.execute granted iterations t s
  unfolding Threads.execute execute
  same_steps starter s = same_starter s.starter_at s
  same_steps low s = same_low s.low_at s
  same_steps medium s = same_medium s.medium_at s
  same_steps high s = same_high s.high_at s
