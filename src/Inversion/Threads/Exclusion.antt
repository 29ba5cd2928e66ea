-- ===== src/Inversion/Threads/Exclusion.antt =====
-- Who owns the mutex of case 06, in every reachable state.
use systems_postmortems.Inversion.Threads.Waking.{
  Woken, Woken-wake_up, starter_woken, low_woken, medium_woken, high_woken,
}
use systems_postmortems.Prelude.{
  ℕ, zero, ◌+◌, ◌≡◌, refl, Bool, true, false, ◌&&◌, Option, none, some, arith, subst,
}
use mathlib.Core.Option.{some-injective}
use systems_postmortems.Inversion.Threads.{
  Thread, starter, low, medium, high, LowPc, HogPc, ControlPc, MainPc, System, is_free, when-some,
  high_over, low_over, medium_over, low_step, medium_step, high_step, starter_step, execute,
  initial,
}
use systems_postmortems.Inversion.Threads.Scheduler.{Protocol, Reach, start, step, wakes, idles}

-- Between its lock and its unlock.
abbrev pub low_inside : LowPc → Bool
low_inside (LowPc.spin rest state) = true
low_inside LowPc.release = true
low_inside _ = false

abbrev pub high_inside : ControlPc → Bool
high_inside (ControlPc.measure i asked) = true
high_inside (ControlPc.release i) = true
high_inside _ = false

abbrev pub holder : Bool → Bool → Option Thread
holder true y = some low
holder false true = some high
holder false false = none

-- Before `main` has created the thread of the lowest, and of the highest, priority.
abbrev no_low : MainPc → Bool
no_low MainPc.create_low = true
no_low _ = false

abbrev no_high : MainPc → Bool
no_high MainPc.create_low = true
no_high MainPc.create_medium = true
no_high MainPc.doze = true
no_high (MainPc.asleep wake) = true
no_high MainPc.create_high = true
no_high _ = false

abbrev low_born : LowPc → Bool
low_born LowPc.unborn = false
low_born _ = true

abbrev high_born : ControlPc → Bool
high_born ControlPc.unborn = false
high_born _ = true

pub record IsExclusive (s : System) : Type 0 where
  pub low_later : (no_low s.starter_at && low_born s.low_at) ≡ false
  pub high_later : (no_high s.starter_at && high_born s.high_at) ≡ false
  pub held : s.owner ≡ holder (low_inside s.low_at) (high_inside s.high_at)
  pub apart : (low_inside s.low_at && high_inside s.high_at) ≡ false

moved : {v u : System} → some v ≡ some u → IsExclusive v → IsExclusive u
moved {v} {u} e x = subst IsExclusive (some-injective v u e) x

at_time : (clock : ℕ) {s : System} → IsExclusive s → IsExclusive (record s { clock = clock })
at_time clock x = record {
  low_later = x.low_later;
  high_later = x.high_later;
  held = x.held;
  apart = x.apart;
}

pub Woken-IsExclusive : {s u : System} → Woken s u → IsExclusive s → IsExclusive u
Woken-IsExclusive (starter_woken w q le) x = ground arith
Woken-IsExclusive (low_woken w q le) x = ground arith
Woken-IsExclusive (medium_woken w q le) x = record {
  low_later = x.low_later;
  high_later = x.high_later;
  held = x.held;
  apart = x.apart;
}
Woken-IsExclusive (high_woken i w q le) x = ground arith

module _ (granted : Thread → Bool) (iterations : ℕ) where
  low-IsExclusive :
      (p : LowPc) (s u : System)
      → s.low_at ≡ p
      → low_step granted iterations p s ≡ some u
      → IsExclusive s
      → IsExclusive u
  unfolding low_step
  low-IsExclusive LowPc.unborn s u q e x = absurd (cc)
  low-IsExclusive LowPc.ended s u q e x = absurd (cc)
  low-IsExclusive (LowPc.asleep wake) s u q e x = absurd (cc)
  low-IsExclusive LowPc.acquire s u q e x =
      let (free, r) = when-some (is_free s.owner) _ u e in subst IsExclusive r (ground arith)
  low-IsExclusive LowPc.entry s u q e x = moved e (ground arith)
  low-IsExclusive (LowPc.spin zero state) s u q e x = moved e (ground arith)
  low-IsExclusive p s u q e x = moved e (ground arith)

  high-IsExclusive :
      (p : ControlPc) (s u : System)
      → s.high_at ≡ p
      → high_step granted iterations p s ≡ some u
      → IsExclusive s
      → IsExclusive u
  unfolding high_step
  high-IsExclusive ControlPc.unborn s u q e x = absurd (cc)
  high-IsExclusive ControlPc.ended s u q e x = absurd (cc)
  high-IsExclusive (ControlPc.asleep i wake) s u q e x = absurd (cc)
  high-IsExclusive (ControlPc.acquire i asked) s u q e x =
      let (free, r) = when-some (is_free s.owner) _ u e in subst IsExclusive r (ground arith)
  high-IsExclusive ControlPc.entry s u q e x = moved e (ground arith)
  high-IsExclusive p s u q e x = moved e (ground arith)

  medium-IsExclusive :
      (p : HogPc) (s u : System)
      → medium_step granted iterations p s ≡ some u
      → IsExclusive s
      → IsExclusive u
  unfolding medium_step
  medium-IsExclusive HogPc.unborn s u e x = absurd (cc)
  medium-IsExclusive HogPc.ended s u e x = absurd (cc)
  medium-IsExclusive (HogPc.asleep wake) s u e x = absurd (cc)
  medium-IsExclusive HogPc.entry s u e x = moved e (ground arith)
  medium-IsExclusive p s u e x = moved e (ground arith)

  starter-IsExclusive :
      (p : MainPc) (s u : System)
      → s.starter_at ≡ p
      → starter_step granted iterations p s ≡ some u
      → IsExclusive s
      → IsExclusive u
  unfolding starter_step
  starter-IsExclusive MainPc.past_joins s u q e x = absurd (cc)
  starter-IsExclusive (MainPc.asleep wake) s u q e x = absurd (cc)
  starter-IsExclusive MainPc.join_high s u q e x =
      subst IsExclusive (when-some (high_over s.high_at) _ u e).1 (ground arith)
  starter-IsExclusive MainPc.join_low s u q e x =
      subst IsExclusive (when-some (low_over s.low_at) _ u e).1 (ground arith)
  starter-IsExclusive MainPc.join_medium s u q e x =
      subst IsExclusive (when-some (medium_over s.medium_at) _ u e).1 (ground arith)
  starter-IsExclusive MainPc.create_low s u q e x = moved e (ground arith)
  starter-IsExclusive p s u q e x = moved e (ground arith)

  execute-IsExclusive :
      (t : Thread) (s u : System)
      → execute granted iterations t s ≡ some u
      → IsExclusive s
      → IsExclusive u
  unfolding execute
  execute-IsExclusive starter s u e x = starter-IsExclusive s.starter_at s u refl e x
  execute-IsExclusive low s u e x = low-IsExclusive s.low_at s u refl e x
  execute-IsExclusive medium s u e x = medium-IsExclusive s.medium_at s u e x
  execute-IsExclusive high s u e x = high-IsExclusive s.high_at s u refl e x

  pub Reach-IsExclusive_from :
      {protocol : Protocol} {cost : ℕ} {from s : System}
      → IsExclusive from
      → Reach granted protocol iterations cost from s
      → IsExclusive s
  Reach-IsExclusive_from x start = x
  Reach-IsExclusive_from x (step {s} {u} r t time le p e) =
      at_time (u.clock + time) (execute-IsExclusive t s u e (Reach-IsExclusive_from x r))
  Reach-IsExclusive_from x (wakes {s} {u} r t e) =
      Woken-IsExclusive (Woken-wake_up t s u e) (Reach-IsExclusive_from x r)
  Reach-IsExclusive_from x (idles {s} r time nobody) =
      at_time (s.clock + time) (Reach-IsExclusive_from x r)

  pub Reach-IsExclusive :
      {protocol : Protocol} {cost clock sink : ℕ} {s : System}
      → Reach granted protocol iterations cost (initial clock sink) s
      → IsExclusive s
  Reach-IsExclusive r = Reach-IsExclusive_from (ground arith) r
