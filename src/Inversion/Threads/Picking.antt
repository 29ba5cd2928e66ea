-- ===== src/Inversion/Threads/Picking.antt =====
-- Whom the scheduler picks in case 06 while the control loop waits, when all three requests are
-- granted.
use systems_postmortems.Prelude.{
  ◌⊎◌, ◌≢◌, inl, inr, ℕ, zero, suc, ◌≤◌, ◌≡◌, refl, Bool, true, false, none, some, arith,
}
use systems_postmortems.Inversion.Threads.{
  Thread, starter, low, medium, high, LowPc, HogPc, ControlPc, System, low_step, medium_step,
  high_step, when, execute,
}
use systems_postmortems.Inversion.Threads.Scheduler.{
  Protocol, plain, inherit, owns, base, lent, priority, is_some, can_run, IsPicked,
}
use systems_postmortems.Inversion.Threads.Exclusion.{low_inside, IsExclusive}

module _ (granted : Thread → Bool) (iterations : ℕ) (all : (t : Thread) → granted t ≡ true) where
  base_bounds :
      (s : System)
      → (base granted s starter ≡ 0) × (base granted s low ≤ 10) × (base granted s medium ≤ 50)
  unfolding base
  base_bounds s = (refl, ground arith, ground arith)

  base-waiting :
      (s : System) (i asked : ℕ) → s.high_at ≡ ControlPc.acquire i asked → base granted s high ≡ 90
  unfolding base
  base-waiting s i asked q = ground (arith, q, all high)

  lent-waiting :
      (s : System) (i asked : ℕ) → s.high_at ≡ ControlPc.acquire i asked → 90 ≤ lent granted s
  unfolding lent
  lent-waiting s i asked q = ground (arith, q, base-waiting s i asked q)

  low_runs :
      (p : LowPc) (s : System)
      → low_inside p ≡ true
      → is_some (low_step granted iterations p s) ≡ true
  unfolding low_step
  low_runs (LowPc.spin zero state) s h = refl
  low_runs (LowPc.spin (suc n) state) s h = refl
  low_runs LowPc.release s h = refl
  low_runs LowPc.acquire s h = absurd (cc)
  low_runs p s h = absurd (cc)

  priority-other :
      (protocol : Protocol) (s : System) (t : Thread)
      → owns s t ≡ false
      → priority granted protocol s t ≡ base granted s t
  unfolding priority
  priority-other plain s t h = refl
  priority-other inherit s t h = rw h

  lent-le-priority :
      (s : System) (t : Thread) → owns s t ≡ true → lent granted s ≤ priority granted inherit s t
  unfolding priority
  lent-le-priority s t h = ground arith

  only_low :
      (t : Thread) (s : System) (i asked : ℕ)
      → s.owner ≡ some low
      → s.high_at ≡ ControlPc.acquire i asked
      → can_run granted iterations s t ≡ true
      → 90 ≤ priority granted inherit s t
      → t ≡ low
  unfolding execute high_step when
  only_low starter s i asked o q c h =
      absurd (omega (arith, h, priority-other inherit s starter (ground (arith, o)), base_bounds s))
  only_low low s i asked o q c h = refl
  only_low medium s i asked o q c h =
      absurd (omega (arith, h, priority-other inherit s medium (ground (arith, o)), base_bounds s))
  only_low high s i asked o q c h = absurd (ground (arith, o, q, c))

  pub inside-can_run :
      (s : System) → low_inside s.low_at ≡ true → can_run granted iterations s low ≡ true
  unfolding execute
  inside-can_run s h = low_runs s.low_at s h

  -- While the control loop waits and the lowest thread is in its critical section, the lowest thread
  -- is the one that runs.
  pub picked-low :
      {s : System} {t : Thread} (i asked : ℕ)
      → IsExclusive s
      → s.high_at ≡ ControlPc.acquire i asked
      → low_inside s.low_at ≡ true
      → IsPicked granted inherit iterations s t
      → t ≡ low
  picked-low {s} {t} i asked x q h p =
      let owned : s.owner ≡ some low = ground (arith, x.held, h) in
      only_low t s i asked owned q p.runs (
        omega (
          arith,
          p.highest low (inside-can_run s h),
          lent-waiting s i asked q,
          lent-le-priority s low (ground (arith, owned)),
        ))

  base-le-priority :
      (protocol : Protocol) (s : System) (t : Thread)
      → base granted s t ≤ priority granted protocol s t
  unfolding priority
  base-le-priority plain s t = omega arith
  base-le-priority inherit s t = ground arith

  only_high :
      (protocol : Protocol) (t : Thread) (s : System)
      → owns s low ≡ false
      → owns s medium ≡ false
      → owns s starter ≡ false
      → 90 ≤ priority granted protocol s t
      → t ≡ high
  only_high protocol starter s a b c h =
      absurd (omega (arith, h, priority-other protocol s starter c, base_bounds s))
  only_high protocol low s a b c h =
      absurd (omega (arith, h, priority-other protocol s low a, base_bounds s))
  only_high protocol medium s a b c h =
      absurd (omega (arith, h, priority-other protocol s medium b, base_bounds s))
  only_high protocol high s a b c h = refl

  pub free-can_run :
      (s : System) (i asked : ℕ)
      → IsExclusive s
      → s.high_at ≡ ControlPc.acquire i asked
      → low_inside s.low_at ≡ false
      → can_run granted iterations s high ≡ true
  unfolding execute high_step when
  free-can_run s i asked x q h =
      let free : s.owner ≡ none = ground (arith, x.held, h, q) in ground (arith, free, q)

  pub measure-can_run :
      (s : System) (i asked : ℕ)
      → s.high_at ≡ ControlPc.measure i asked
      → can_run granted iterations s high ≡ true
  unfolding execute high_step
  measure-can_run s i asked q = ground (arith, q)

  -- When the control loop can have the mutex, or has just got it, it is the one that runs.
  pub picked-free :
      {protocol : Protocol} {s : System} {t : Thread} (i asked : ℕ)
      → IsExclusive s
      → s.high_at ≡ ControlPc.acquire i asked
      → low_inside s.low_at ≡ false
      → IsPicked granted protocol iterations s t
      → t ≡ high
  picked-free {protocol} {s} {t} i asked x q h p =
      let free : s.owner ≡ none = ground (arith, x.held, h, q) in
      only_high protocol t s (ground (arith, free)) (ground (arith, free)) (ground (arith, free)) (
        omega (
          arith,
          p.highest high (free-can_run s i asked x q h),
          base-waiting s i asked q,
          base-le-priority protocol s high,
        ))

  base-measuring :
      (s : System) (i asked : ℕ) → s.high_at ≡ ControlPc.measure i asked → base granted s high ≡ 90
  unfolding base
  base-measuring s i asked q = ground (arith, q, all high)

  pub picked-measure :
      {protocol : Protocol} {s : System} {t : Thread} (i asked : ℕ)
      → IsExclusive s
      → s.high_at ≡ ControlPc.measure i asked
      → IsPicked granted protocol iterations s t
      → t ≡ high
  picked-measure {protocol} {s} {t} i asked x q p =
      let owned : s.owner ≡ some high = ground (arith, x.held, x.apart, q) in
      only_high protocol t s (ground (arith, owned)) (ground (arith, owned)) (ground (arith, owned))
        (omega (
          arith,
          p.highest high (measure-can_run s i asked q),
          base-measuring s i asked q,
          base-le-priority protocol s high,
        ))

  only_medium :
      (t : Thread) (s : System) (i asked : ℕ)
      → s.owner ≡ some low
      → s.high_at ≡ ControlPc.acquire i asked
      → can_run granted iterations s t ≡ true
      → 50 ≤ priority granted plain s t
      → t ≡ medium
  unfolding execute high_step when priority
  only_medium starter s i asked o q c h = absurd (omega (arith, h, base_bounds s))
  only_medium low s i asked o q c h = absurd (omega (arith, h, base_bounds s))
  only_medium medium s i asked o q c h = refl
  only_medium high s i asked o q c h = absurd (ground (arith, o, q, c))

  busy-can_run :
      (s : System) (deadline : ℕ)
      → s.medium_at ≡ HogPc.busy deadline
      → can_run granted iterations s medium ≡ true
  unfolding execute medium_step
  busy-can_run s deadline q = ground (arith, q)

  busy-priority :
      (s : System) (deadline : ℕ)
      → s.medium_at ≡ HogPc.busy deadline
      → 50 ≤ priority granted plain s medium
  unfolding priority base
  busy-priority s deadline q = ground (arith, q, all medium)

  -- Without inheritance, while the control loop waits for the lowest thread and the middle one is busy,
  -- the middle one is the one that runs.
  pub picked-medium :
      {s : System} {t : Thread} (i asked deadline : ℕ)
      → IsExclusive s
      → s.high_at ≡ ControlPc.acquire i asked
      → low_inside s.low_at ≡ true
      → s.medium_at ≡ HogPc.busy deadline
      → IsPicked granted plain iterations s t
      → t ≡ medium
  picked-medium {s} {t} i asked deadline x q h b p =
      let owned : s.owner ≡ some low = ground (arith, x.held, h) in
      only_medium t s i asked owned q p.runs
        (omega (arith, p.highest medium (busy-can_run s deadline b), busy-priority s deadline b))

  base-inside : (s : System) → low_inside s.low_at ≡ true → base granted s low ≡ 10
  unfolding base
  base-inside s h = ground (arith, h, all low)

  above_low :
      (t : Thread) (s : System) (i asked : ℕ)
      → s.owner ≡ some low
      → s.high_at ≡ ControlPc.acquire i asked
      → can_run granted iterations s t ≡ true
      → 10 ≤ priority granted plain s t
      → (t ≡ low) ⊎ ((t ≡ medium) × (s.medium_at ≢ HogPc.entry))
  unfolding execute high_step when priority base
  above_low starter s i asked o q c h = absurd (omega (arith, h))
  above_low low s i asked o q c h = inl refl
  above_low medium s i asked o q c h = inr (refl, λ e. ground (arith, h, e))
  above_low high s i asked o q c h = absurd (ground (arith, o, q, c))

  -- Without inheritance, while the control loop waits for the lowest thread, that one runs or the
  -- middle one, which then has asked for its priority.
  pub picked-plain :
      {s : System} {t : Thread} (i asked : ℕ)
      → IsExclusive s
      → s.high_at ≡ ControlPc.acquire i asked
      → low_inside s.low_at ≡ true
      → IsPicked granted plain iterations s t
      → (t ≡ low) ⊎ ((t ≡ medium) × (s.medium_at ≢ HogPc.entry))
  unfolding priority
  picked-plain {s} {t} i asked x q h p =
      let owned : s.owner ≡ some low = ground (arith, x.held, h) in
      above_low t s i asked owned q p.runs
        (omega (arith, p.highest low (inside-can_run s h), base-inside s h))
