-- ===== src/Inversion/Threads/Waking.antt =====
-- What a wake-up does in case 06: a thread that sleeps, and whose time has come, goes on.
use systems_postmortems.Prelude.{ℕ, ◌+◌, ◌≤◌, ◌≡◌, refl, some, leb, leb→le, subst}
use systems_postmortems.Inversion.Threads.{
  Thread, starter, low, medium, high, LowPc, HogPc, ControlPc, MainPc, System, when-some,
  starter_wakes, low_wakes, medium_wakes, high_wakes, wake_up,
}

pub data Woken (s : System) : System → Type 0 where
  starter_woken :
      (wake : ℕ)
      → s.starter_at ≡ MainPc.asleep wake
      → wake ≤ s.clock
      → Woken s (record s { starter_at = MainPc.create_high })
  low_woken :
      (wake : ℕ)
      → s.low_at ≡ LowPc.asleep wake
      → wake ≤ s.clock
      → Woken s (record s { low_at = LowPc.test })
  medium_woken :
      (wake : ℕ)
      → s.medium_at ≡ HogPc.asleep wake
      → wake ≤ s.clock
      → Woken s (record s { medium_at = HogPc.test })
  high_woken :
      (cycle wake : ℕ)
      → s.high_at ≡ ControlPc.asleep cycle wake
      → wake ≤ s.clock
      → Woken s (record s { high_at = ControlPc.test (cycle + 1) })

Woken-starter_wakes :
    (p : MainPc) (s u : System) → s.starter_at ≡ p → starter_wakes p s ≡ some u → Woken s u
unfolding starter_wakes
Woken-starter_wakes (MainPc.asleep wake) s u q e =
    let (le, r) = when-some (leb wake s.clock) _ u e in
    subst (Woken s) r (starter_woken wake q (leb→le _ _ le))
Woken-starter_wakes MainPc.create_low s u q e = absurd (cc)
Woken-starter_wakes p s u q e = absurd (cc)

Woken-low_wakes : (p : LowPc) (s u : System) → s.low_at ≡ p → low_wakes p s ≡ some u → Woken s u
unfolding low_wakes
Woken-low_wakes (LowPc.asleep wake) s u q e =
    let (le, r) = when-some (leb wake s.clock) _ u e in
    subst (Woken s) r (low_woken wake q (leb→le _ _ le))
Woken-low_wakes LowPc.unborn s u q e = absurd (cc)
Woken-low_wakes p s u q e = absurd (cc)

Woken-medium_wakes :
    (p : HogPc) (s u : System) → s.medium_at ≡ p → medium_wakes p s ≡ some u → Woken s u
unfolding medium_wakes
Woken-medium_wakes (HogPc.asleep wake) s u q e =
    let (le, r) = when-some (leb wake s.clock) _ u e in
    subst (Woken s) r (medium_woken wake q (leb→le _ _ le))
Woken-medium_wakes HogPc.unborn s u q e = absurd (cc)
Woken-medium_wakes p s u q e = absurd (cc)

Woken-high_wakes :
    (p : ControlPc) (s u : System) → s.high_at ≡ p → high_wakes p s ≡ some u → Woken s u
unfolding high_wakes
Woken-high_wakes (ControlPc.asleep i wake) s u q e =
    let (le, r) = when-some (leb wake s.clock) _ u e in
    subst (Woken s) r (high_woken i wake q (leb→le _ _ le))
Woken-high_wakes ControlPc.unborn s u q e = absurd (cc)
Woken-high_wakes p s u q e = absurd (cc)

pub Woken-wake_up : (t : Thread) (s u : System) → wake_up t s ≡ some u → Woken s u
unfolding wake_up
Woken-wake_up starter s u e = Woken-starter_wakes s.starter_at s u refl e
Woken-wake_up low s u e = Woken-low_wakes s.low_at s u refl e
Woken-wake_up medium s u e = Woken-medium_wakes s.medium_at s u refl e
Woken-wake_up high s u e = Woken-high_wakes s.high_at s u refl e
