-- ===== src/Inversion/Threads/Kernel/Returned.antt =====
-- What the calls of `setPriority` return in a run of case 06's threads over a kernel.
use mathlib.Core.Option.{some-injective}
use systems_postmortems.Prelude.{
  ℕ, zero, suc, ◌+◌, ◌≡◌, inl, inr, refl, sym, ap, ◌∙◌, Bool, Bool-cases, List, [], ◌∷◌, some,
  subst, arith, Option-cases, if◌then◌else◌,
}
use systems_postmortems.Inversion.Priority.{Scheduling, State, set_priority}
use systems_postmortems.Inversion.Priority.Granted.{successes, set_priority_iff}
use systems_postmortems.Inversion.Threads
use systems_postmortems.Inversion.Threads.{
  Thread, starter, low, medium, high, LowPc, HogPc, ControlPc, MainPc, System, wake_up, low_step,
  medium_step, high_step, starter_step, when-some, is_free, high_over, low_over, medium_over,
}
use systems_postmortems.Inversion.Threads.Scheduler.{Protocol}
use systems_postmortems.Inversion.Threads.Waking.{
  Woken, starter_woken, low_woken, medium_woken, high_woken, Woken-wake_up,
}
use systems_postmortems.Inversion.Threads.Kernel.{
  handle, sched_fifo, wanted, enters, resume, refused, Machine, enter, execute, Reach, start, step,
  wakes, idles,
}

module _ (iterations : ℕ) where
  low_keeps :
      (p : LowPc) (s u : System)
      → low_step refused iterations p s ≡ some u
      → u.rt_threads ≡ s.rt_threads
  unfolding low_step
  low_keeps LowPc.unborn s u e = absurd (cc)
  low_keeps LowPc.acquire s u e =
      subst (λ v. v.rt_threads ≡ s.rt_threads) (when-some (is_free s.owner) _ u e).1 refl
  low_keeps (LowPc.spin zero state) s u e = ground arith
  low_keeps (LowPc.spin (suc n) state) s u e = ground arith
  low_keeps p s u e = ground arith

  medium_keeps :
      (p : HogPc) (s u : System)
      → medium_step refused iterations p s ≡ some u
      → u.rt_threads ≡ s.rt_threads
  unfolding medium_step
  medium_keeps p s u e = ground arith

  high_keeps :
      (p : ControlPc) (s u : System)
      → high_step refused iterations p s ≡ some u
      → u.rt_threads ≡ s.rt_threads
  unfolding high_step
  high_keeps ControlPc.unborn s u e = absurd (cc)
  high_keeps (ControlPc.acquire i at) s u e =
      subst (λ v. v.rt_threads ≡ s.rt_threads) (when-some (is_free s.owner) _ u e).1 refl
  high_keeps p s u e = ground arith

  starter_keeps :
      (p : MainPc) (s u : System)
      → starter_step refused iterations p s ≡ some u
      → u.rt_threads ≡ s.rt_threads
  unfolding starter_step
  starter_keeps MainPc.past_joins s u e = absurd (cc)
  starter_keeps (MainPc.asleep wake) s u e = absurd (cc)
  starter_keeps MainPc.join_high s u e =
      subst (λ v. v.rt_threads ≡ s.rt_threads) (when-some (high_over s.high_at) _ u e).1 refl
  starter_keeps MainPc.join_low s u e =
      subst (λ v. v.rt_threads ≡ s.rt_threads) (when-some (low_over s.low_at) _ u e).1 refl
  starter_keeps MainPc.join_medium s u e =
      subst (λ v. v.rt_threads ≡ s.rt_threads) (when-some (medium_over s.medium_at) _ u e).1 refl
  starter_keeps p s u e = ground arith

  execute-rt_threads :
      (t : Thread) (s u : System)
      → Threads.execute refused iterations t s ≡ some u
      → u.rt_threads ≡ s.rt_threads
  unfolding Threads.execute
  execute-rt_threads starter s u e = starter_keeps s.starter_at s u e
  execute-rt_threads low s u e = low_keeps s.low_at s u e
  execute-rt_threads medium s u e = medium_keeps s.medium_at s u e
  execute-rt_threads high s u e = high_keeps s.high_at s u e

Woken-rt_threads : {s u : System} → Woken s u → u.rt_threads ≡ s.rt_threads
Woken-rt_threads (starter_woken k q le) = refl
Woken-rt_threads (low_woken k q le) = refl
Woken-rt_threads (medium_woken k q le) = refl
Woken-rt_threads (high_woken i k q le) = refl

resume-rt_threads : (t : Thread) (s : System) → (resume t s).rt_threads ≡ s.rt_threads
resume-rt_threads starter s = refl
resume-rt_threads low s = refl
resume-rt_threads medium s = refl
resume-rt_threads high s = refl

module _ (os : Scheduling) where
  -- The call of thread `t`, with its answer.
  abbrev call : Thread → Machine os → Bool × State os
  call t x =
      set_priority os (handle t) sched_fifo (wanted t)
        (record { kernel = x.kernel; rt_threads = x.sys.rt_threads })

  enter-rt_threads :
      (t : Thread) (x : Machine os)
      → (enter os t x).sys.rt_threads
        ≡ (if (call t x).0 then x.sys.rt_threads + 1 else x.sys.rt_threads)
  unfolding enter
  enter-rt_threads t x =
      resume-rt_threads t _
      ∙ (set_priority_iff os (handle t) sched_fifo (wanted t)
          (record { kernel = x.kernel; rt_threads = x.sys.rt_threads })).2

  step-returned :
      (iterations n : ℕ) (t : Thread) (x y : Machine os) (before : List Bool)
      → successes before + n ≡ x.sys.rt_threads
      → execute os iterations t x ≡ some y
      → successes (if enters t x.sys then (call t x).0 ∷ before else before) + n ≡ y.sys.rt_threads
  unfolding execute successes
  step-returned iterations n t x y before same e = elim (Bool-cases (enters t x.sys)) [
    | inl calls ↦
        let made : enter os t x ≡ y = some-injective _ _ (ground (arith, calls, e)) in
        rw calls (ground (arith, enter-rt_threads t x, ap (λ z. z.sys.rt_threads) made, same))
    | inr other ↦ elim (Option-cases (Threads.execute refused iterations t x.sys)) [
      | inl stuck ↦ absurd (ground (arith, other, stuck, e))
      | inr (u, made) ↦
          let moved : record x { sys = u } ≡ y =
            some-injective _ _ (ground (arith, other, made, e)) in
          rw other (
            omega (
              arith,
              same,
              execute-rt_threads iterations t x.sys u made,
              ap (λ z. z.sys.rt_threads) moved,
            ))
    ]
  ]

  module _ (iterations : ℕ) {protocol : Protocol} {cost : ℕ} {from : Machine os} where
    -- The answers of the calls in a run, the last one first.
    unfoldable pub returned :
        {x : Machine os} → Reach os iterations protocol cost from x → List Bool
    returned start = []
    returned (step {x} r t time le p e) =
        let before = returned r in if enters t x.sys then (call t x).0 ∷ before else before
    returned (wakes r t e) = returned r
    returned (idles r time nobody) = returned r

    -- g_rt_threads counts the calls that return true.
    pub returned-rt_threads :
        {x : Machine os} (r : Reach os iterations protocol cost from x)
        → successes (returned r) + from.sys.rt_threads ≡ x.sys.rt_threads
    unfolding returned successes
    returned-rt_threads start = omega arith
    returned-rt_threads (step {x} {y} r t time le p e) =
        step-returned iterations from.sys.rt_threads t x y (returned r) (returned-rt_threads r) e
    returned-rt_threads (wakes {x} {u} r t e) =
        returned-rt_threads r ∙ sym (Woken-rt_threads (Woken-wake_up t x.sys u e))
    returned-rt_threads (idles r time nobody) = returned-rt_threads r
