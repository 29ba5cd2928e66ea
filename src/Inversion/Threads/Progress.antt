-- ===== src/Inversion/Threads/Progress.antt =====
-- No deadlock in case 06: the processor stands still only for sleeping threads.
use systems_postmortems.Prelude.{ℕ, zero, suc, ◌≡◌, ◌⊎◌, inl, inr, refl, Bool, true, false, arith}
use systems_postmortems.Inversion.Threads.{
  Thread, starter, low, medium, high, LowPc, HogPc, ControlPc, MainPc, System, is_free, low_over,
  medium_over, high_over, when, low_step, medium_step, high_step, starter_step, execute, initial,
}
use systems_postmortems.Inversion.Threads.Scheduler.{Protocol, is_some, can_run, Reach}
use systems_postmortems.Inversion.Threads.Exclusion.{IsExclusive, Reach-IsExclusive}
use systems_postmortems.Inversion.Threads.Joins.{IsCounted, Reach-IsCounted}

-- A thread sleeps.
abbrev pub Sleeps : System → Type 0
Sleeps s =
    ((wake : ℕ) × (s.starter_at ≡ MainPc.asleep wake))
    ⊎ ((wake : ℕ) × (s.low_at ≡ LowPc.asleep wake))
    ⊎ ((wake : ℕ) × (s.medium_at ≡ HogPc.asleep wake))
    ⊎ ((cycle : ℕ) × (wake : ℕ) × (s.high_at ≡ ControlPc.asleep cycle wake))

-- What `main` waits for: its own sleep, or a thread that it joins and that sleeps.
pub data Awaits (s : System) : Type 0 where
  its_own : (wake : ℕ) → s.starter_at ≡ MainPc.asleep wake → Awaits s
  for_high :
      (cycle wake : ℕ)
      → s.starter_at ≡ MainPc.join_high
      → s.high_at ≡ ControlPc.asleep cycle wake
      → Awaits s
  for_low : (wake : ℕ) → s.starter_at ≡ MainPc.join_low → s.low_at ≡ LowPc.asleep wake → Awaits s
  for_medium :
      (wake : ℕ) → s.starter_at ≡ MainPc.join_medium → s.medium_at ≡ HogPc.asleep wake → Awaits s

Awaits-Sleeps : {s : System} → Awaits s → Sleeps s
Awaits-Sleeps (its_own wake a) = inl (wake, a)
Awaits-Sleeps (for_high i wake a b) = inr (inr (inr (i, wake, b)))
Awaits-Sleeps (for_low wake a b) = inr (inl (wake, b))
Awaits-Sleeps (for_medium wake a b) = inr (inr (inl (wake, b)))

clash : {b : Bool} → b ≡ false → ¬ (b ≡ true)
clash f t = cc

module _ (granted : Thread → Bool) (iterations : ℕ) where
  low_still :
      (p : LowPc) (s : System)
      → is_some (low_step granted iterations p s) ≡ false
      → (p ≡ LowPc.unborn)
        ⊎ (p ≡ LowPc.ended)
        ⊎ ((wake : ℕ) × (p ≡ LowPc.asleep wake))
        ⊎ ((p ≡ LowPc.acquire) × (is_free s.owner ≡ false))
  unfolding low_step when
  low_still LowPc.unborn s h = inl refl
  low_still LowPc.ended s h = inr (inl refl)
  low_still (LowPc.asleep wake) s h = inr (inr (inl (wake, refl)))
  low_still LowPc.acquire s h = inr (inr (inr (refl, ground arith)))
  low_still LowPc.entry s h = absurd (cc)
  low_still (LowPc.spin zero state) s h = absurd (cc)
  low_still (LowPc.spin (suc n) state) s h = absurd (cc)
  low_still p s h = absurd (cc)

  medium_still :
      (p : HogPc) (s : System)
      → is_some (medium_step granted iterations p s) ≡ false
      → (p ≡ HogPc.unborn) ⊎ (p ≡ HogPc.ended) ⊎ ((wake : ℕ) × (p ≡ HogPc.asleep wake))
  unfolding medium_step
  medium_still HogPc.unborn s h = inl refl
  medium_still HogPc.ended s h = inr (inl refl)
  medium_still (HogPc.asleep wake) s h = inr (inr (wake, refl))
  medium_still HogPc.entry s h = absurd (cc)
  medium_still p s h = absurd (cc)

  high_still :
      (p : ControlPc) (s : System)
      → is_some (high_step granted iterations p s) ≡ false
      → (p ≡ ControlPc.unborn)
        ⊎ (p ≡ ControlPc.ended)
        ⊎ ((i : ℕ) × (wake : ℕ) × (p ≡ ControlPc.asleep i wake))
        ⊎ ((i : ℕ) × (asked : ℕ) × (p ≡ ControlPc.acquire i asked) × (is_free s.owner ≡ false))
  unfolding high_step when
  high_still ControlPc.unborn s h = inl refl
  high_still ControlPc.ended s h = inr (inl refl)
  high_still (ControlPc.asleep i wake) s h = inr (inr (inl (i, wake, refl)))
  high_still (ControlPc.acquire i asked) s h = inr (inr (inr (i, asked, refl, ground arith)))
  high_still ControlPc.entry s h = absurd (cc)
  high_still p s h = absurd (cc)

  starter_still :
      (p : MainPc) (s : System)
      → is_some (starter_step granted iterations p s) ≡ false
      → (p ≡ MainPc.past_joins)
        ⊎ ((wake : ℕ) × (p ≡ MainPc.asleep wake))
        ⊎ ((p ≡ MainPc.join_high) × (high_over s.high_at ≡ false))
        ⊎ ((p ≡ MainPc.join_low) × (low_over s.low_at ≡ false))
        ⊎ ((p ≡ MainPc.join_medium) × (medium_over s.medium_at ≡ false))
  unfolding starter_step when
  starter_still MainPc.past_joins s h = inl refl
  starter_still (MainPc.asleep wake) s h = inr (inl (wake, refl))
  starter_still MainPc.join_high s h = inr (inr (inl (refl, ground arith)))
  starter_still MainPc.join_low s h = inr (inr (inr (inl (refl, ground arith))))
  starter_still MainPc.join_medium s h = inr (inr (inr (inr (refl, ground arith))))
  starter_still MainPc.create_low s h = absurd (cc)
  starter_still p s h = absurd (cc)

  -- Who waits for the mutex waits for a thread that can run.
  low_free :
      (p : ControlPc) (s : System)
      → s.high_at ≡ p
      → IsExclusive s
      → s.low_at ≡ LowPc.acquire
      → is_some (high_step granted iterations p s) ≡ false
      → is_free s.owner ≡ true
  unfolding high_step when
  low_free (ControlPc.measure i asked) s q x l h = absurd (cc)
  low_free (ControlPc.release i) s q x l h = absurd (cc)
  low_free ControlPc.unborn s q x l h = ground (arith, x.held, q, l)
  low_free p s q x l h = ground (arith, x.held, q, l)

  high_free :
      (p : LowPc) (s : System) (i asked : ℕ)
      → s.low_at ≡ p
      → IsExclusive s
      → s.high_at ≡ ControlPc.acquire i asked
      → is_some (low_step granted iterations p s) ≡ false
      → is_free s.owner ≡ true
  unfolding low_step when
  high_free (LowPc.spin zero state) s i asked q x l h = absurd (cc)
  high_free (LowPc.spin (suc n) state) s i asked q x l h = absurd (cc)
  high_free LowPc.release s i asked q x l h = absurd (cc)
  high_free LowPc.unborn s i asked q x l h = ground (arith, x.held, q, l)
  high_free p s i asked q x l h = ground (arith, x.held, q, l)

  module _ (s : System) (x : IsExclusive s) (n : IsCounted granted s)
      (nobody : (t : Thread) → can_run granted iterations s t ≡ false) where
    low_settled :
        (s.low_at ≡ LowPc.unborn)
        ⊎ (s.low_at ≡ LowPc.ended)
        ⊎ ((wake : ℕ) × (s.low_at ≡ LowPc.asleep wake))
    unfolding execute
    low_settled = elim (low_still s.low_at s (nobody low)) [
      | inl a ↦ inl a
      | inr (inl a) ↦ inr (inl a)
      | inr (inr (inl a)) ↦ inr (inr a)
      | inr (inr (inr (a, taken))) ↦
          absurd (clash taken (low_free s.high_at s refl x a (nobody high)))
    ]

    high_settled :
        (s.high_at ≡ ControlPc.unborn)
        ⊎ (s.high_at ≡ ControlPc.ended)
        ⊎ ((i : ℕ) × (wake : ℕ) × (s.high_at ≡ ControlPc.asleep i wake))
    unfolding execute
    high_settled = elim (high_still s.high_at s (nobody high)) [
      | inl a ↦ inl a
      | inr (inl a) ↦ inr (inl a)
      | inr (inr (inl a)) ↦ inr (inr a)
      | inr (inr (inr (i, asked, a, taken))) ↦
          absurd (clash taken (high_free s.low_at s i asked refl x a (nobody low)))
    ]

    -- The cases of what `main` waits for.
    joining_high :
        s.starter_at ≡ MainPc.join_high
        → high_over s.high_at ≡ false
        → (i : ℕ) × (wake : ℕ) × (s.high_at ≡ ControlPc.asleep i wake)
    joining_high q over = elim high_settled [
      | inl a ↦ absurd (ground (arith, n.high_there, q, a))
      | inr (inl a) ↦ absurd (ground (arith, over, a))
      | inr (inr a) ↦ a
    ]

    joining_low :
        s.starter_at ≡ MainPc.join_low
        → low_over s.low_at ≡ false
        → (wake : ℕ) × (s.low_at ≡ LowPc.asleep wake)
    joining_low q over = elim low_settled [
      | inl a ↦ absurd (ground (arith, n.low_there, q, a))
      | inr (inl a) ↦ absurd (ground (arith, over, a))
      | inr (inr a) ↦ a
    ]

    joining_medium :
        s.starter_at ≡ MainPc.join_medium
        → medium_over s.medium_at ≡ false
        → (wake : ℕ) × (s.medium_at ≡ HogPc.asleep wake)
    unfolding execute
    joining_medium q over = elim (medium_still s.medium_at s (nobody medium)) [
      | inl a ↦ absurd (ground (arith, n.medium_there, q, a))
      | inr (inl a) ↦ absurd (ground (arith, over, a))
      | inr (inr a) ↦ a
    ]

    settled : (s.starter_at ≡ MainPc.past_joins) ⊎ Awaits s
    unfolding execute
    settled = elim (starter_still s.starter_at s (nobody starter)) [
      | inl a ↦ inl a
      | inr (inl (wake, a)) ↦ inr (its_own wake a)
      | inr (inr (inl (a, over))) ↦
          let (i, wake, b) = joining_high a over in inr (for_high i wake a b)
      | inr (inr (inr (inl (a, over)))) ↦
          let (wake, b) = joining_low a over in inr (for_low wake a b)
      | inr (inr (inr (inr (a, over)))) ↦
          let (wake, b) = joining_medium a over in inr (for_medium wake a b)
    ]

  -- In every reachable state in which no thread can run, `main` is past its joins, or it sleeps or
  -- joins a thread that sleeps.
  pub idle-Awaits :
      {protocol : Protocol} {cost clock sink : ℕ} {s : System}
      → Reach granted protocol iterations cost (initial clock sink) s
      → ((t : Thread) → can_run granted iterations s t ≡ false)
      → (s.starter_at ≡ MainPc.past_joins) ⊎ Awaits s
  idle-Awaits {s = s} r nobody =
      settled s (Reach-IsExclusive granted iterations r) (Reach-IsCounted granted iterations r)
        nobody

  -- In every reachable state in which no thread can run, under either protocol and whatever was granted,
  -- `main` is past its joins or some thread sleeps.
  pub idle-Sleeps :
      {protocol : Protocol} {cost clock sink : ℕ} {s : System}
      → Reach granted protocol iterations cost (initial clock sink) s
      → ((t : Thread) → can_run granted iterations s t ≡ false)
      → (s.starter_at ≡ MainPc.past_joins) ⊎ Sleeps s
  idle-Sleeps {s = s} r nobody = elim (idle-Awaits r nobody) [
    | inl past ↦ inl past
    | inr waits ↦ inr (Awaits-Sleeps waits)
  ]
