-- ===== src/Inversion/Threads/Recorded/Kept.antt =====
-- The record of the waits is kept by every step of the threads of case 06.
use mathlib.Core.Option.{some-injective}
use systems_postmortems.Prelude.{
  ℕ, ◌-◌, ◌/◌, ◌≡◌, refl, ap, sym, ◌∙◌, Bool, inl, inr, some, ltb, arith, subst, Bool-cases,
}
use systems_postmortems.Prelude.Int.{ℤ, pos}
use systems_postmortems.Threads.Table.{store}
use systems_postmortems.Inversion.Control.{cycles, one_cycle, control_loop, control}
use systems_postmortems.Inversion.Threads.{
  Thread, starter, low, medium, high, ControlPc, System, is_free, when-some, high_step, execute,
  initial,
}
use systems_postmortems.Inversion.Threads.Scheduler.{Protocol, Reach, start, step, wakes, idles}
use systems_postmortems.Inversion.Threads.Waking.{
  Woken, Woken-wake_up, starter_woken, low_woken, medium_woken, high_woken,
}
use systems_postmortems.Inversion.Threads.Frames.{
  low_step-LowFrame, medium_step-MediumFrame, StarterFrame, starter_step-StarterFrame,
}
use systems_postmortems.Inversion.Threads.Joins.{Reach-IsCounted, IsCounted}
use systems_postmortems.Inversion.Threads.Recorded.{note, waits_of, IsRecorded, at_high, measured}

module _ (granted : Thread → Bool) (iterations : ℕ) where
  high-IsRecorded :
      (p : ControlPc) (waits : ℕ → ℤ) (s u : System)
      → s.high_at ≡ p
      → high_step granted iterations p s ≡ some u
      → IsRecorded waits s
      → IsRecorded (note high p s.clock waits) u
  unfolding high_step note
  high-IsRecorded ControlPc.unborn waits s u q e x = absurd (cc)
  high-IsRecorded ControlPc.ended waits s u q e x = absurd (cc)
  high-IsRecorded (ControlPc.asleep i wake) waits s u q e x = absurd (cc)
  high-IsRecorded (ControlPc.acquire i asked) waits s u q e x =
      subst (IsRecorded waits) (when-some (is_free s.owner) _ u e).1 (record {
        within = ground (arith, (at_high waits s q x).0);
        worst = (at_high waits s q x).1;
      })
  high-IsRecorded (ControlPc.measure i asked) waits s u q e x =
      subst (IsRecorded (store waits i (pos ((s.clock - asked) / 1000)))) (some-injective _ u e)
        (record {
          within = ground (arith, (at_high waits s q x).0);
          worst =
              ap (λ b. one_cycle (pos ((s.clock - asked) / 1000)) b) (at_high waits s q x).1
              ∙ measured i (pos ((s.clock - asked) / 1000)) waits;
        })
  high-IsRecorded ControlPc.entry waits s u q e x =
      subst (IsRecorded waits) (some-injective _ u e) (record {
        within = ground (arith, (at_high waits s q x).0);
        worst = (at_high waits s q x).1;
      })
  high-IsRecorded (ControlPc.test i) waits s u q e x =
      subst (IsRecorded waits) (some-injective _ u e) (record {
        within = ground (arith, (at_high waits s q x).0);
        worst = elim (Bool-cases (ltb i cycles)) [
          | inl more ↦ rw more (at_high waits s q x).1
          | inr all ↦
              let last : i ≡ cycles = ground (arith, all, (at_high waits s q x).0) in
              rw (all, ← last) (at_high waits s q x).1
        ];
      })
  high-IsRecorded (ControlPc.release i) waits s u q e x =
      subst (IsRecorded waits) (some-injective _ u e) (record {
        within = ground (arith, (at_high waits s q x).0);
        worst = (at_high waits s q x).1;
      })
  high-IsRecorded (ControlPc.doze i) waits s u q e x =
      subst (IsRecorded waits) (some-injective _ u e) (record {
        within = ground (arith, (at_high waits s q x).0);
        worst = (at_high waits s q x).1;
      })

  same-IsRecorded :
      (waits : ℕ → ℤ) (s u : System)
      → u.high_at ≡ s.high_at
      → u.worst ≡ s.worst
      → IsRecorded waits s
      → IsRecorded waits u
  same-IsRecorded waits s u a b x = record {
    within = (at_high waits s (sym a) x).0;
    worst = b ∙ (at_high waits s (sym a) x).1;
  }

  starter-IsRecorded :
      (waits : ℕ → ℤ) (s u : System)
      → IsCounted granted s
      → StarterFrame granted iterations s u
      → IsRecorded waits s
      → IsRecorded waits u
  starter-IsRecorded waits s u c f x = elim f.high_at [
    | inl same ↦ same-IsRecorded waits s u same f.worst x
    | inr (born, creates) ↦
        let unborn : s.high_at ≡ ControlPc.unborn = ground (arith, c.high_later, creates) in
        record {
          within = ground (arith, born);
          worst = rw born (f.worst ∙ (at_high waits s unborn x).1);
        }
  ]

  execute-IsRecorded :
      (t : Thread) (waits : ℕ → ℤ) (s u : System)
      → IsCounted granted s
      → execute granted iterations t s ≡ some u
      → IsRecorded waits s
      → IsRecorded (note t s.high_at s.clock waits) u
  unfolding execute note
  execute-IsRecorded starter waits s u c e x =
      starter-IsRecorded waits s u c
        (starter_step-StarterFrame granted iterations s.starter_at s u refl e) x
  execute-IsRecorded low waits s u c e x =
      let f = (low_step-LowFrame granted iterations s.low_at s u e).same in
      same-IsRecorded waits s u f.high_at f.worst x
  execute-IsRecorded medium waits s u c e x =
      let f = (medium_step-MediumFrame granted iterations s.medium_at s u e).same in
      same-IsRecorded waits s u f.high_at f.worst x
  execute-IsRecorded high waits s u c e x = high-IsRecorded s.high_at waits s u refl e x

  Woken-IsRecorded :
      {s u : System} (waits : ℕ → ℤ) → Woken s u → IsRecorded waits s → IsRecorded waits u
  Woken-IsRecorded waits (starter_woken k q le) x = record { within = x.within; worst = x.worst }
  Woken-IsRecorded waits (low_woken k q le) x = record { within = x.within; worst = x.worst }
  Woken-IsRecorded waits (medium_woken k q le) x = record { within = x.within; worst = x.worst }
  Woken-IsRecorded {s} waits (high_woken i k q le) x = record {
    within = ground (arith, (at_high waits s q x).0);
    worst = (at_high waits s q x).1;
  }

  module _ {protocol : Protocol} {cost clock sink : ℕ} where
    Reach-IsRecorded :
        {s : System} (r : Reach granted protocol iterations cost (initial clock sink) s)
        → IsRecorded (waits_of r) s
    unfolding waits_of control_loop
    Reach-IsRecorded start = record { within = refl; worst = refl }
    Reach-IsRecorded (step {s} {u} r t time le p e) =
        let x =
          execute-IsRecorded t (waits_of r) s u (Reach-IsCounted granted iterations r) e
            (Reach-IsRecorded r) in
        record { within = x.within; worst = x.worst }
    Reach-IsRecorded (wakes {s} {u} r t e) =
        Woken-IsRecorded (waits_of r) (Woken-wake_up t s u e) (Reach-IsRecorded r)
    Reach-IsRecorded (idles {s} r time nobody) =
        let x = Reach-IsRecorded r in record { within = x.within; worst = x.worst }

    pub ended-control :
        {s : System} (r : Reach granted protocol iterations cost (initial clock sink) s)
        → s.high_at ≡ ControlPc.ended
        → s.worst ≡ control (waits_of r) (pos 0)
    unfolding control
    ended-control {s} r q = (at_high (waits_of r) s q (Reach-IsRecorded r)).1
