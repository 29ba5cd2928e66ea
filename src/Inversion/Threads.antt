-- ===== src/Inversion/Threads.antt =====
-- The threads of case 06 on one processor: `lowPriorityDiagnostics`, `mediumPriorityHog`,
-- `highPriorityControl` and what `main` does with them, as broken.cpp writes them. A step is a few
-- instructions of one thread; the clock is read at its beginning.
pub mod Scheduler
pub mod Waking
pub mod Frames
pub mod Picking
pub mod Exclusion
pub mod Joins
pub mod Simulation
pub mod Inheritance
pub mod Hog
pub mod Progress
pub mod Recorded
pub mod Refinement
pub mod PriorityLock
pub mod Budget
pub mod Bursts
pub mod Left
pub mod Outcome
pub mod Finish
pub mod Answers
pub mod Kernel
mod Tests
use mathlib.Core.Option.{some-injective}
use systems_postmortems.Prelude.{
  ℕ, zero, suc, ◌+◌, ◌-◌, ◌/◌, ◌≡◌, refl, Bool, true, false, Option, none, some, ltb, leb,
  if◌then◌else◌,
}
use systems_postmortems.Prelude.Int.{ℤ, pos}
use systems_postmortems.Inversion.Work.{or_one, mix}
use systems_postmortems.Inversion.Control.{cycles, one_cycle}

-- The constants of the sources, in nanoseconds, which the clock counts.
abbrev pub hog_burst : ℕ
hog_burst = 10_000_000

abbrev pub hog_idle : ℕ
hog_idle = 3_000_000

abbrev pub holder_idle : ℕ
holder_idle = 30_000_000

-- The sleeps of `highPriorityControl` and of `main`.
abbrev pub control_idle : ℕ
control_idle = 2_000_000

abbrev pub head_start : ℕ
head_start = 50_000_000

pub data Thread : Type 0 where
  starter low medium high : Thread

-- `lowPriorityDiagnostics`: `spin rest state` is in `spinWork` with so many rounds to go.
pub data LowPc : Type 0 where
  unborn entry test acquire release doze ended : LowPc
  spin : (rest state : ℕ) → LowPc
  asleep : (wake : ℕ) → LowPc

-- `mediumPriorityHog`: `busy` is the loop of `busyFor`.
pub data HogPc : Type 0 where
  unborn entry test begin_busy doze ended : HogPc
  busy : (deadline : ℕ) → HogPc
  asleep : (wake : ℕ) → HogPc

-- `highPriorityControl` in its `cycle`.
pub data ControlPc : Type 0 where
  unborn entry ended : ControlPc
  test release doze : (cycle : ℕ) → ControlPc
  acquire measure : (cycle asked : ℕ) → ControlPc
  asleep : (cycle wake : ℕ) → ControlPc

-- `main`, from the creation of the first thread to its last join.
pub data MainPc : Type 0 where
  create_low create_medium doze create_high join_high stop join_low join_medium past_joins : MainPc
  asleep : (wake : ℕ) → MainPc

pub record System : Type 0 where
  pub clock : ℕ
  pub running : Bool  -- g_running
  pub owner : Option Thread  -- of g_shared
  pub sink : ℕ  -- g_sink
  pub worst : ℤ  -- g_worst_block_us, in microseconds
  pub rt_threads : ℕ  -- g_rt_threads
  pub starter_at : MainPc
  pub low_at : LowPc
  pub medium_at : HogPc
  pub high_at : ControlPc

-- A step that can be made only if the test holds.
unfoldable pub when {ℓ} : {A : Type ℓ} → Bool → A → Option A
when true v = some v
when false v = none

abbrev pub is_free : Option Thread → Bool
is_free none = true
is_free (some t) = false

abbrev pub low_over : LowPc → Bool
low_over LowPc.ended = true
low_over _ = false

abbrev pub medium_over : HogPc → Bool
medium_over HogPc.ended = true
medium_over _ = false

abbrev pub high_over : ControlPc → Bool
high_over ControlPc.ended = true
high_over _ = false

-- The test of the loop of `busyFor`, and where the middle thread goes on.
abbrev pub busy_for : (deadline clock : ℕ) → HogPc
busy_for deadline clock = if ltb clock deadline then HogPc.busy deadline else HogPc.doze

abbrev pub count : Bool → ℕ → ℕ
count granted n = if granted then n + 1 else n

-- What `setPriority` answers each thread, and the value of g_critical_iterations, which `main` stores
-- before it starts them.
module _ (granted : Thread → Bool) (iterations : ℕ) where
  unfoldable pub low_step : LowPc → System → Option System
  unfolding mix when
  low_step unborn s = none
  low_step entry s =
      some (record s { low_at = test; rt_threads = count (granted low) s.rt_threads })
  low_step test s = some (record s { low_at = if s.running then acquire else ended })
  low_step acquire s =
      when (is_free s.owner)
        (record s { owner = some low; low_at = spin iterations (or_one s.sink) })
  low_step (spin zero state) s = some (record s { sink = state; low_at = release })
  low_step (spin (suc n) state) s = some (record s { low_at = spin n (mix state) })
  low_step release s = some (record s { owner = none; low_at = doze })
  low_step doze s = some (record s { low_at = asleep (s.clock + holder_idle) })
  low_step (asleep wake) s = none
  low_step ended s = none

  unfoldable pub medium_step : HogPc → System → Option System
  medium_step unborn s = none
  medium_step entry s =
      some (record s { medium_at = test; rt_threads = count (granted medium) s.rt_threads })
  medium_step test s = some (record s { medium_at = if s.running then begin_busy else ended })
  medium_step begin_busy s = some (record s { medium_at = busy (s.clock + hog_burst) })
  medium_step (busy deadline) s = some (record s { medium_at = busy_for deadline s.clock })
  medium_step doze s = some (record s { medium_at = asleep (s.clock + hog_idle) })
  medium_step (asleep wake) s = none
  medium_step ended s = none

  unfoldable pub high_step : ControlPc → System → Option System
  unfolding one_cycle when
  high_step unborn s = none
  high_step entry s =
      some (record s { high_at = test 0; rt_threads = count (granted high) s.rt_threads })
  high_step (test i) s =
      some (record s { high_at = if ltb i cycles then acquire i s.clock else ended })
  high_step (acquire i asked) s =
      when (is_free s.owner) (record s { owner = some high; high_at = measure i asked })
  high_step (measure i asked) s =
      some (record s {
        worst = one_cycle (pos ((s.clock - asked) / 1000)) s.worst;
        high_at = release i;
      })
  high_step (release i) s = some (record s { owner = none; high_at = doze i })
  high_step (doze i) s = some (record s { high_at = asleep i (s.clock + control_idle) })
  high_step (asleep i wake) s = none
  high_step ended s = none

  unfoldable pub starter_step : MainPc → System → Option System
  unfolding when
  starter_step create_low s = some (record s { starter_at = create_medium; low_at = entry })
  starter_step create_medium s = some (record s { starter_at = doze; medium_at = entry })
  starter_step doze s = some (record s { starter_at = asleep (s.clock + head_start) })
  starter_step (asleep wake) s = none
  starter_step create_high s = some (record s { starter_at = join_high; high_at = entry })
  starter_step join_high s = when (high_over s.high_at) (record s { starter_at = stop })
  starter_step stop s = some (record s { running = false; starter_at = join_low })
  starter_step join_low s = when (low_over s.low_at) (record s { starter_at = join_medium })
  starter_step join_medium s = when (medium_over s.medium_at) (record s { starter_at = past_joins })
  starter_step past_joins s = none

  -- One step of a thread; `none` if it waits, sleeps or is not there.
  unfoldable pub execute : Thread → System → Option System
  unfolding low_step medium_step high_step starter_step
  execute starter s = starter_step s.starter_at s
  execute low s = low_step s.low_at s
  execute medium s = medium_step s.medium_at s
  execute high s = high_step s.high_at s

-- A sleep ends at some time from its wake-up time on.
unfoldable pub starter_wakes : MainPc → System → Option System
unfolding when
starter_wakes (asleep wake) s = when (leb wake s.clock) (record s { starter_at = create_high })
starter_wakes _ s = none

unfoldable pub low_wakes : LowPc → System → Option System
unfolding when
low_wakes (asleep wake) s = when (leb wake s.clock) (record s { low_at = test })
low_wakes _ s = none

unfoldable pub medium_wakes : HogPc → System → Option System
unfolding when
medium_wakes (asleep wake) s = when (leb wake s.clock) (record s { medium_at = test })
medium_wakes _ s = none

unfoldable pub high_wakes : ControlPc → System → Option System
unfolding when
high_wakes (asleep i wake) s = when (leb wake s.clock) (record s { high_at = test (i + 1) })
high_wakes _ s = none

unfoldable pub wake_up : Thread → System → Option System
unfolding starter_wakes low_wakes medium_wakes high_wakes
wake_up starter s = starter_wakes s.starter_at s
wake_up low s = low_wakes s.low_at s
wake_up medium s = medium_wakes s.medium_at s
wake_up high s = high_wakes s.high_at s

pub when-some {ℓ} : {A : Type ℓ} (b : Bool) (v u : A) → when b v ≡ some u → (b ≡ true) × (v ≡ u)
unfolding when
when-some true v u e = (refl, some-injective v u e)
when-some false v u e = absurd (cc)

-- When `main` creates the first thread, after the calibration, which leaves the clock and the sink.
abbrev pub initial : (clock sink : ℕ) → System
initial clock sink = record {
  clock = clock;
  running = true;
  owner = none;
  sink = sink;
  worst = pos 0;
  rt_threads = 0;
  starter_at = create_low;
  low_at = unborn;
  medium_at = unborn;
  high_at = unborn;
}
