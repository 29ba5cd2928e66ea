-- ===== src/Inversion/Threads/Frames.antt =====
-- What a step of one thread of case 06 leaves alone, and the work that is left of a critical section.
use mathlib.Core.Option.{some-injective}
use systems_postmortems.Inversion.Control.{one_cycle}
use systems_postmortems.Prelude.{
  ℕ, zero, ◌+◌, ◌-◌, ◌/◌, ◌≤◌, ◌≡◌, ◌⊎◌, inl, inr, refl, Bool, true, some, arith, subst,
}
use systems_postmortems.Prelude.Int.{ℤ, pos, ◌≤ℤ◌}
use systems_postmortems.Inversion.Threads.{
  Thread, LowPc, HogPc, ControlPc, MainPc, System, is_free, high_over, low_over, medium_over,
  when-some, low_step, medium_step, high_step, starter_step,
}
use systems_postmortems.Inversion.Threads.Exclusion.{low_inside}

-- The steps that the thread of the lowest priority is from its unlock.
abbrev pub left : LowPc → ℕ
left (LowPc.spin rest state) = rest + 2
left LowPc.release = 1
left _ = 0

-- The parts that only the thread of the highest priority changes, and the clock.
pub record SameWait (s u : System) : Type 0 where
  pub clock : u.clock ≡ s.clock
  pub worst : u.worst ≡ s.worst
  pub high_at : u.high_at ≡ s.high_at

module _ (granted : Thread → Bool) (iterations : ℕ) where
  pub record LowFrame (p : LowPc) (s u : System) : Type 0 where
    pub same : SameWait s u
    pub bound : left p ≤ iterations + 2 → left u.low_at ≤ iterations + 2
    pub falls : low_inside p ≡ true → left u.low_at + 1 ≡ left p
    pub medium_at : u.medium_at ≡ s.medium_at

  pub low_step-LowFrame :
      (p : LowPc) (s u : System) → low_step granted iterations p s ≡ some u → LowFrame p s u
  unfolding low_step
  low_step-LowFrame LowPc.unborn s u e = absurd (cc)
  low_step-LowFrame LowPc.ended s u e = absurd (cc)
  low_step-LowFrame (LowPc.asleep wake) s u e = absurd (cc)
  low_step-LowFrame LowPc.acquire s u e =
      subst (LowFrame LowPc.acquire s) (when-some (is_free s.owner) _ u e).1 (record {
        same = record { clock = refl; worst = refl; high_at = refl };
        bound = λ h. omega arith;
        falls = λ h. absurd (cc);
        medium_at = refl;
      })
  low_step-LowFrame LowPc.entry s u e =
      subst (LowFrame LowPc.entry s) (some-injective _ u e) (record {
        same = record { clock = refl; worst = refl; high_at = refl };
        bound = λ h. ground arith;
        falls = λ h. ground arith;
        medium_at = refl;
      })
  low_step-LowFrame (LowPc.spin zero state) s u e =
      subst (LowFrame (LowPc.spin zero state) s) (some-injective _ u e) (record {
        same = record { clock = refl; worst = refl; high_at = refl };
        bound = λ h. ground arith;
        falls = λ h. ground arith;
        medium_at = refl;
      })
  low_step-LowFrame p s u e = subst (LowFrame p s) (some-injective _ u e) (record {
    same = record { clock = refl; worst = refl; high_at = refl };
    bound = λ h. ground arith;
    falls = λ h. ground arith;
    medium_at = refl;
  })

  pub record MediumFrame (s u : System) : Type 0 where
    pub same : SameWait s u
    pub low_at : u.low_at ≡ s.low_at

  pub medium_step-MediumFrame :
      (p : HogPc) (s u : System) → medium_step granted iterations p s ≡ some u → MediumFrame s u
  unfolding medium_step
  medium_step-MediumFrame HogPc.unborn s u e = absurd (cc)
  medium_step-MediumFrame HogPc.ended s u e = absurd (cc)
  medium_step-MediumFrame (HogPc.asleep wake) s u e = absurd (cc)
  medium_step-MediumFrame HogPc.entry s u e =
      subst (MediumFrame s) (some-injective _ u e)
        (record { same = record { clock = refl; worst = refl; high_at = refl }; low_at = refl })
  medium_step-MediumFrame p s u e =
      subst (MediumFrame s) (some-injective _ u e)
        (record { same = record { clock = refl; worst = refl; high_at = refl }; low_at = refl })

  pub record StarterFrame (s u : System) : Type 0 where
    pub clock : u.clock ≡ s.clock
    pub worst : u.worst ≡ s.worst
    pub high_at :
        (u.high_at ≡ s.high_at)
        ⊎ ((u.high_at ≡ ControlPc.entry) × (s.starter_at ≡ MainPc.create_high))
    pub low_at : (u.low_at ≡ s.low_at) ⊎ (u.low_at ≡ LowPc.entry)
    pub medium_at : (u.medium_at ≡ s.medium_at) ⊎ (u.medium_at ≡ HogPc.entry)

  pub starter_step-StarterFrame :
      (p : MainPc) (s u : System)
      → s.starter_at ≡ p
      → starter_step granted iterations p s ≡ some u
      → StarterFrame s u
  unfolding starter_step
  starter_step-StarterFrame MainPc.past_joins s u q e = absurd (cc)
  starter_step-StarterFrame (MainPc.asleep wake) s u q e = absurd (cc)
  starter_step-StarterFrame MainPc.join_high s u q e =
      subst (StarterFrame s) (when-some (high_over s.high_at) _ u e).1 (record {
        clock = refl;
        worst = refl;
        high_at = inl refl;
        low_at = inl refl;
        medium_at = inl refl;
      })
  starter_step-StarterFrame MainPc.join_low s u q e =
      subst (StarterFrame s) (when-some (low_over s.low_at) _ u e).1 (record {
        clock = refl;
        worst = refl;
        high_at = inl refl;
        low_at = inl refl;
        medium_at = inl refl;
      })
  starter_step-StarterFrame MainPc.join_medium s u q e =
      subst (StarterFrame s) (when-some (medium_over s.medium_at) _ u e).1 (record {
        clock = refl;
        worst = refl;
        high_at = inl refl;
        low_at = inl refl;
        medium_at = inl refl;
      })
  starter_step-StarterFrame MainPc.create_low s u q e =
      subst (StarterFrame s) (some-injective _ u e) (record {
        clock = refl;
        worst = refl;
        high_at = inl refl;
        low_at = inr refl;
        medium_at = inl refl;
      })
  starter_step-StarterFrame MainPc.create_medium s u q e =
      subst (StarterFrame s) (some-injective _ u e) (record {
        clock = refl;
        worst = refl;
        high_at = inl refl;
        low_at = inl refl;
        medium_at = inr refl;
      })
  starter_step-StarterFrame MainPc.create_high s u q e =
      subst (StarterFrame s) (some-injective _ u e) (record {
        clock = refl;
        worst = refl;
        high_at = inr (refl, q);
        low_at = inl refl;
        medium_at = inl refl;
      })
  starter_step-StarterFrame p s u q e = subst (StarterFrame s) (some-injective _ u e) (record {
    clock = refl;
    worst = refl;
    high_at = inl refl;
    low_at = inl refl;
    medium_at = inl refl;
  })

  -- The thread of the highest priority: after the mutex it measures, and g_worst_block_us grows to the
  -- time since it asked.
  pub record HighFrame (p : ControlPc) (s u : System) : Type 0 where
    pub clock : u.clock ≡ s.clock
    pub grows : s.worst ≤ℤ u.worst
    pub acquired :
        (i asked : ℕ) → p ≡ ControlPc.acquire i asked → u.high_at ≡ ControlPc.measure i asked
    pub measured :
        (i asked : ℕ) → p ≡ ControlPc.measure i asked → pos ((s.clock - asked) / 1000) ≤ℤ u.worst

  one_cycle_grows : (w worst : ℤ) → (worst ≤ℤ one_cycle w worst) × (w ≤ℤ one_cycle w worst)
  unfolding one_cycle
  one_cycle_grows w worst = ground arith

  pub high_step-HighFrame :
      (p : ControlPc) (s u : System) → high_step granted iterations p s ≡ some u → HighFrame p s u
  unfolding high_step
  high_step-HighFrame ControlPc.unborn s u e = absurd (cc)
  high_step-HighFrame ControlPc.ended s u e = absurd (cc)
  high_step-HighFrame (ControlPc.asleep i wake) s u e = absurd (cc)
  high_step-HighFrame (ControlPc.acquire i asked) s u e =
      subst (HighFrame (ControlPc.acquire i asked) s) (when-some (is_free s.owner) _ u e).1
        (record {
          clock = refl;
          grows = omega arith;
          acquired = λ j a q. ground (arith, q);
          measured = λ j a q. absurd (cc);
        })
  high_step-HighFrame (ControlPc.measure i asked) s u e =
      subst (HighFrame (ControlPc.measure i asked) s) (some-injective _ u e) (record {
        clock = refl;
        grows = (one_cycle_grows (pos ((s.clock - asked) / 1000)) s.worst).0;
        acquired = λ j a q. absurd (cc);
        measured = λ j a q.
            let same : asked ≡ a = ground (arith, q) in
            rw (← same) (one_cycle_grows (pos ((s.clock - asked) / 1000)) s.worst).1;
      })
  high_step-HighFrame ControlPc.entry s u e =
      subst (HighFrame ControlPc.entry s) (some-injective _ u e) (record {
        clock = refl;
        grows = omega arith;
        acquired = λ j a q. absurd (cc);
        measured = λ j a q. absurd (cc);
      })
  high_step-HighFrame p s u e = subst (HighFrame p s) (some-injective _ u e) (record {
    clock = refl;
    grows = omega arith;
    acquired = λ j a q. absurd (cc);
    measured = λ j a q. absurd (cc);
  })
