-- ===== src/Inversion/Threads/Left.antt =====
-- How much is left of case 06's threads when no sleep ends but those that `main` waits for: every step
-- that takes time, and every such end of a sleep, leaves less.
use mathlib.Core.Option.{some-injective}
use systems_postmortems.Prelude.{
  ℕ, zero, suc, ◌+◌, ◌-◌, ◌*◌, ◌≤◌, ◌<◌, ◌≡◌, refl, Bool, false, some, ltb, if◌then◌else◌, arith,
  subst,
}
use systems_postmortems.Inversion.Control.{cycles}
use systems_postmortems.Inversion.Threads.{
  Thread, starter, low, medium, high, LowPc, HogPc, ControlPc, MainPc, System, hog_burst, is_free,
  high_over, low_over, medium_over, when-some, low_step, medium_step, high_step, starter_step,
  execute, wake_up,
}
use systems_postmortems.Inversion.Threads.Joins.{IsCounted}
use systems_postmortems.Inversion.Threads.Progress.{Awaits, its_own, for_high, for_low, for_medium}

abbrev starter_left : MainPc → ℕ
starter_left MainPc.create_low = 10
starter_left MainPc.create_medium = 9
starter_left MainPc.doze = 8
starter_left (MainPc.asleep wake) = 7
starter_left MainPc.create_high = 6
starter_left MainPc.join_high = 5
starter_left MainPc.stop = 4
starter_left MainPc.join_low = 3
starter_left MainPc.join_medium = 2
starter_left MainPc.past_joins = 0

abbrev low_left : (iterations : ℕ) → (running : Bool) → LowPc → ℕ
low_left iterations running LowPc.unborn = iterations + 10
low_left iterations running LowPc.entry = iterations + 9
low_left iterations running LowPc.test = if running then iterations + 8 else 1
low_left iterations running LowPc.acquire = iterations + 7
low_left iterations running (LowPc.spin rest state) = rest + 5
low_left iterations running LowPc.release = 4
low_left iterations running LowPc.doze = 3
low_left iterations running (LowPc.asleep wake) = 2
low_left iterations running LowPc.ended = 0

abbrev medium_left : (running : Bool) → (clock : ℕ) → HogPc → ℕ
medium_left running clock HogPc.unborn = hog_burst + 10
medium_left running clock HogPc.entry = hog_burst + 9
medium_left running clock HogPc.test = if running then hog_burst + 8 else 1
medium_left running clock HogPc.begin_busy = hog_burst + 7
medium_left running clock (HogPc.busy deadline) = deadline - clock + 5
medium_left running clock HogPc.doze = 3
medium_left running clock (HogPc.asleep wake) = 2
medium_left running clock HogPc.ended = 0

abbrev rounds_left : ℕ → ℕ
rounds_left i = (cycles - i) * 8

abbrev high_left : ControlPc → ℕ
high_left ControlPc.unborn = rounds_left 0 + 10
high_left ControlPc.entry = rounds_left 0 + 9
high_left (ControlPc.test i) = if ltb i cycles then rounds_left i + 8 else 1
high_left (ControlPc.acquire i asked) = rounds_left i + 7
high_left (ControlPc.measure i asked) = rounds_left i + 6
high_left (ControlPc.release i) = rounds_left i + 5
high_left (ControlPc.doze i) = rounds_left i + 4
high_left (ControlPc.asleep i wake) = rounds_left i + 3
high_left ControlPc.ended = 0

module _ (iterations : ℕ) where
  abbrev pub left_at : ℕ → System → ℕ
  left_at clock s =
      starter_left s.starter_at
      + low_left iterations s.running s.low_at
      + medium_left s.running clock s.medium_at
      + high_left s.high_at

  -- One nanosecond later.
  abbrev Falls : System → System → Type 0
  Falls s u = left_at (u.clock + 1) u < left_at s.clock s

  clock_falls :
      (running : Bool) (clock time : ℕ) (m : HogPc)
      → medium_left running (clock + time) m ≤ medium_left running clock m
  clock_falls running clock time (HogPc.busy deadline) = omega arith
  clock_falls running clock time HogPc.unborn = omega arith
  clock_falls running clock time m = omega arith

  stop_falls :
      (running : Bool) (clock : ℕ) (l : LowPc) (m : HogPc)
      → (low_left iterations false l ≤ low_left iterations running l)
        × (medium_left false clock m ≤ medium_left running clock m)
  stop_falls running clock l m = (ground arith, ground arith)

  module _ (granted : Thread → Bool) where
    moved : (s : System) {v u : System} → some v ≡ some u → Falls s v → Falls s u
    moved s {v} {u} e f = subst (Falls s) (some-injective v u e) f

    low-Falls :
        (p : LowPc) (s u : System)
        → s.low_at ≡ p
        → low_step granted iterations p s ≡ some u
        → Falls s u
    unfolding low_step
    low-Falls LowPc.unborn s u q e = absurd (cc)
    low-Falls LowPc.ended s u q e = absurd (cc)
    low-Falls (LowPc.asleep wake) s u q e = absurd (cc)
    low-Falls LowPc.acquire s u q e =
        subst (Falls s) (when-some (is_free s.owner) _ u e).1
          (ground (arith, q, clock_falls s.running s.clock 1 s.medium_at))
    low-Falls (LowPc.spin zero state) s u q e =
        moved s e (ground (arith, q, clock_falls s.running s.clock 1 s.medium_at))
    low-Falls (LowPc.spin (suc n) state) s u q e =
        moved s e (ground (arith, q, clock_falls s.running s.clock 1 s.medium_at))
    low-Falls LowPc.entry s u q e =
        moved s e (ground (arith, q, clock_falls s.running s.clock 1 s.medium_at))
    low-Falls p s u q e = moved s e (ground (arith, q, clock_falls s.running s.clock 1 s.medium_at))

    medium-Falls :
        (p : HogPc) (s u : System)
        → s.medium_at ≡ p
        → medium_step granted iterations p s ≡ some u
        → Falls s u
    unfolding medium_step
    medium-Falls HogPc.unborn s u q e = absurd (cc)
    medium-Falls HogPc.ended s u q e = absurd (cc)
    medium-Falls (HogPc.asleep wake) s u q e = absurd (cc)
    medium-Falls HogPc.entry s u q e = moved s e (ground (arith, q))
    medium-Falls p s u q e = moved s e (ground (arith, q))

    high-Falls :
        (p : ControlPc) (s u : System)
        → s.high_at ≡ p
        → high_step granted iterations p s ≡ some u
        → Falls s u
    unfolding high_step
    high-Falls ControlPc.unborn s u q e = absurd (cc)
    high-Falls ControlPc.ended s u q e = absurd (cc)
    high-Falls (ControlPc.asleep i wake) s u q e = absurd (cc)
    high-Falls (ControlPc.acquire i asked) s u q e =
        subst (Falls s) (when-some (is_free s.owner) _ u e).1
          (ground (arith, q, clock_falls s.running s.clock 1 s.medium_at))
    high-Falls ControlPc.entry s u q e =
        moved s e (ground (arith, q, clock_falls s.running s.clock 1 s.medium_at))
    high-Falls p s u q e =
        moved s e (ground (arith, q, clock_falls s.running s.clock 1 s.medium_at))

    starter-Falls :
        (p : MainPc) (s u : System)
        → s.starter_at ≡ p
        → IsCounted granted s
        → starter_step granted iterations p s ≡ some u
        → Falls s u
    unfolding starter_step
    starter-Falls MainPc.past_joins s u q x e = absurd (cc)
    starter-Falls (MainPc.asleep wake) s u q x e = absurd (cc)
    starter-Falls MainPc.join_high s u q x e =
        subst (Falls s) (when-some (high_over s.high_at) _ u e).1
          (ground (arith, q, clock_falls s.running s.clock 1 s.medium_at))
    starter-Falls MainPc.join_low s u q x e =
        subst (Falls s) (when-some (low_over s.low_at) _ u e).1
          (ground (arith, q, clock_falls s.running s.clock 1 s.medium_at))
    starter-Falls MainPc.join_medium s u q x e =
        subst (Falls s) (when-some (medium_over s.medium_at) _ u e).1
          (ground (arith, q, clock_falls s.running s.clock 1 s.medium_at))
    starter-Falls MainPc.create_low s u q x e =
        let unborn : s.low_at ≡ LowPc.unborn = ground (arith, q, x.low_later) in
        moved s e (ground (arith, q, unborn, clock_falls s.running s.clock 1 s.medium_at))
    starter-Falls MainPc.create_medium s u q x e =
        let unborn : s.medium_at ≡ HogPc.unborn = ground (arith, q, x.medium_later) in
        moved s e (ground (arith, q, unborn))
    starter-Falls MainPc.create_high s u q x e =
        let unborn : s.high_at ≡ ControlPc.unborn = ground (arith, q, x.high_later) in
        moved s e (ground (arith, q, unborn, clock_falls s.running s.clock 1 s.medium_at))
    starter-Falls MainPc.stop s u q x e = moved s e (
        ground (
          arith,
          q,
          stop_falls s.running s.clock s.low_at s.medium_at,
          clock_falls false s.clock 1 s.medium_at,
        ))
    starter-Falls p s u q x e =
        moved s e (ground (arith, q, clock_falls s.running s.clock 1 s.medium_at))

    -- What is left falls with every step.
    pub execute-left_at :
        (t : Thread) (s u : System)
        → IsCounted granted s
        → execute granted iterations t s ≡ some u
        → left_at (u.clock + 1) u < left_at s.clock s
    unfolding execute
    execute-left_at starter s u x e = starter-Falls s.starter_at s u refl x e
    execute-left_at low s u x e = low-Falls s.low_at s u refl e
    execute-left_at medium s u x e = medium-Falls s.medium_at s u refl e
    execute-left_at high s u x e = high-Falls s.high_at s u refl e

    -- When no thread can run, a pause ends by waking the thread that `main` waits for, with less left.
    pub wake_up-left_at :
        (s : System)
        → IsCounted granted s
        → Awaits s
        → (time : ℕ) × (t : Thread) × (u : System) × (wake_up t
              (record s { clock = s.clock + time })
            ≡ some u)
          × (left_at u.clock u < left_at s.clock s)
    unfolding wake_up
    wake_up-left_at s x (its_own wake a) = (
      wake,
      starter,
      record s { clock = s.clock + wake; starter_at = MainPc.create_high },
      ground (arith, a),
      ground (arith, a, clock_falls s.running s.clock wake s.medium_at),
    )
    wake_up-left_at s x (for_high i wake a b) = (
      wake,
      high,
      record s { clock = s.clock + wake; high_at = ControlPc.test (i + 1) },
      ground (arith, b),
      ground (arith, b, clock_falls s.running s.clock wake s.medium_at),
    )
    wake_up-left_at s x (for_low wake a b) = (
      wake,
      low,
      record s { clock = s.clock + wake; low_at = LowPc.test },
      ground (arith, b),
      ground (arith, a, b, x.cleared, clock_falls s.running s.clock wake s.medium_at),
    )
    wake_up-left_at s x (for_medium wake a b) = (
      wake,
      medium,
      record s { clock = s.clock + wake; medium_at = HogPc.test },
      ground (arith, b),
      ground (arith, a, b, x.cleared),
    )
