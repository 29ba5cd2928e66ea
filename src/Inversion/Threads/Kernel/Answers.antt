-- ===== src/Inversion/Threads/Kernel/Answers.antt =====
-- The exit statuses of the two `main` of case 06 over a kernel that grants what the threads ask for.
use systems_postmortems.Prelude.{
  ap, ◌∙◌, arith, List, Bool, ℕ, ◌+◌, ◌*◌, ◌≤◌, ◌≡◌, ◌≢◌, ◌⊎◌, inl, inr, refl, false,
}
use systems_postmortems.Prelude.Int.{ℤ}
use systems_postmortems.Inversion.Calibrate.{Calibration, Doubles}
use systems_postmortems.Inversion.Priority.{Scheduling}
use systems_postmortems.Inversion.Threads.{Thread, LowPc, MainPc}
use systems_postmortems.Inversion.Threads.Scheduler
use systems_postmortems.Inversion.Threads.Scheduler.{Protocol, plain, inherit}
use systems_postmortems.Inversion.Threads.Hog.{IsCaught}
use systems_postmortems.Inversion.Threads.Finish.{can_finish}
use systems_postmortems.Inversion.Threads.Refinement.{
  mutex_protocol, calibrated, answers, successes-answers, broken_machine, fixed_machine,
}
use systems_postmortems.Inversion.Threads.Joins.{past_joins-rt_threads}
use systems_postmortems.Inversion.Priority.Granted.{successes}
use systems_postmortems.Inversion.Threads.Kernel.Returned.{returned, returned-rt_threads}
use systems_postmortems.Inversion.Broken
use systems_postmortems.Inversion.Fixed
use systems_postmortems.Inversion.Threads.Answers.{
  IsUsable, past-IsBounded, past-Inverts, past_or_not,
}
use systems_postmortems.Inversion.Threads.Kernel.{in_force, Machine, Reach, start, IsDocumented}
use systems_postmortems.Inversion.Threads.Kernel.Granting.{IsGenerous, granted}
use systems_postmortems.Inversion.Threads.Kernel.Generous.{Runs, Reach-trans, told, lift}

module _ (fp : Doubles) (os : Scheduling) (law : IsDocumented os) (grants : IsGenerous os)
    (cost clock : ℕ) (elapsed_ns measured_us : ℤ) (k : os.Kernel)
    (unset : (t : Thread) → in_force os k t ≡ false) where
  abbrev measured : Calibration × ℕ
  measured = calibrated fp granted cost clock 0 elapsed_ns measured_us

  -- The runs over the kernel that follow the calibration, and how they go on.
  abbrev pub Started : Protocol → Machine os → Type 0
  Started protocol = Runs os law grants measured.0.iterations protocol cost clock measured.1 k unset

  abbrev pub GoesOn : Protocol → (x y : Machine os) → Type 0
  GoesOn protocol x y = Reach os measured.0.iterations protocol cost x y

  abbrev goes :
      {protocol : Protocol} {x y : Machine os}
      → Started protocol x
      → GoesOn protocol x y
      → Scheduler.Reach granted protocol measured.0.iterations cost x.sys y.sys
  goes {protocol} = told os law grants measured.0.iterations protocol cost clock measured.1 k unset

  abbrev pub further :
      {protocol : Protocol} {x y : Machine os}
      → Started protocol x
      → GoesOn protocol x y
      → Started protocol y
  further = Reach-trans os law grants measured.0.iterations

  -- What `main` reports at the end of the run, of broken.cpp and of fixed.cpp, over the machine whose
  -- threads get the answers of `setPriority`, and measure the waits, that the run has.
  abbrev broken_report : {x : Machine os} → Started plain x → Broken.Report
  broken_report r =
      Broken.main fp
        (record (broken_machine fp granted cost clock 0 elapsed_ns measured_us (goes start r)) {
          granted = returned os measured.0.iterations r;
        })

  abbrev fixed_report : {x : Machine os} → Started (mutex_protocol 0) x → Fixed.Report
  fixed_report r =
      Fixed.main fp
        (record (fixed_machine fp granted cost clock 0 elapsed_ns measured_us 0 (goes start r)) {
          granted = returned os measured.0.iterations r;
        })

  -- `main` is past its joins, says that the wait is bounded and returns 0.
  abbrev pub Bounded : {x : Machine os} → Started (mutex_protocol 0) x → Type 0
  Bounded {x} r =
      (x.sys.starter_at ≡ MainPc.past_joins)
      × ((fixed_report r).conclusion ≡ Fixed.bounded)
      × ((fixed_report r).status ≡ 0)

  -- `main` is past its joins, reports an inversion and returns 1.
  abbrev pub Inverted : {x : Machine os} → Started plain x → Type 0
  Inverted {x} r =
      (x.sys.starter_at ≡ MainPc.past_joins)
      × ((broken_report r).conclusion ≡ Broken.inverted)
      × ((broken_report r).status ≡ 1)

  returned-successes :
      {protocol : Protocol} {x : Machine os} (r : Started protocol x)
      → x.sys.starter_at ≡ MainPc.past_joins
      → successes (returned os measured.0.iterations r) ≡ successes (answers granted)
  returned-successes r e =
      let counted : successes (returned os measured.0.iterations r) + 0 ≡ _ =
        returned-rt_threads os measured.0.iterations r in
      omega (
        arith,
        counted,
        (past_joins-rt_threads granted measured.0.iterations (goes start r) e).3,
        successes-answers granted,
      )

  broken_same :
      (m : Broken.Machine) (l : List Bool)
      → successes l ≡ successes m.granted
      → Broken.main fp (record m { granted = l }) ≡ Broken.main fp m
  unfolding Broken.main
  broken_same m l e = rw e refl

  fixed_same :
      (m : Fixed.Machine) (l : List Bool)
      → successes l ≡ successes m.granted
      → Fixed.main fp (record m { granted = l }) ≡ Fixed.main fp m
  unfolding Fixed.main
  fixed_same m l e = rw e refl

  module _ (usable : IsUsable measured.0) (lasts : 1 ≤ cost) where
    past-Bounded :
        {x : Machine os} (r : Started (mutex_protocol 0) x)
        → (measured.0.iterations + 4) * cost ≤ 10_000_000
        → x.sys.starter_at ≡ MainPc.past_joins
        → Bounded r
    past-Bounded r fits e =
        let m = fixed_machine fp granted cost clock 0 elapsed_ns measured_us 0 (goes start r) in
        let same = fixed_same m _ (returned-successes r e) in
        let (_, says, zero_) =
          past-IsBounded fp granted cost clock 0 elapsed_ns measured_us (λ t. refl) usable lasts
            (goes start r) fits e in
        (e, ap (λ p. p.conclusion) same ∙ says, ap (λ p. p.status) same ∙ zero_)

    -- fixed.cpp over a kernel that keeps the documentation of the two pthread calls and grants the
    -- three threads what they ask for, in which at first none of them has it, when the affinity call and that
    -- for the protocol succeed, the calibration is usable, a step may take a nanosecond and
    -- `iterations` + 4 steps take at most 10 ms: in every state that is reached, with the threads
    -- calling `setPriority` and running with the priorities in force, either `main` is past its joins,
    -- says that the wait is bounded and returns 0, or it is not and some continuation over the kernel
    -- brings it there with that answer.
    pub fixed_over_kernel :
        {x : Machine os} (r : Started (mutex_protocol 0) x)
        → (measured.0.iterations + 4) * cost ≤ 10_000_000
        → Bounded r
          ⊎ ((x.sys.starter_at ≢ MainPc.past_joins)
              × ((y : Machine os) × (q : GoesOn (mutex_protocol 0) x y) × Bounded (further r q)))
    fixed_over_kernel {x} r fits = elim (past_or_not x.sys.starter_at) [
      | inl e ↦ inl (past-Bounded r fits e)
      | inr live ↦
          let (u, q, past) =
            can_finish granted (mutex_protocol 0) measured.0.iterations lasts x.sys
              (goes start r) in
          let (after, l) =
            lift os law grants measured.0.iterations (mutex_protocol 0) cost clock measured.1 k
              unset r q in
          inr (live, (record { sys = u; kernel = after }, l, past-Bounded (further r l) fits past))
    ]

    past-Inverted :
        {x y : Machine os} (cycle asked deadline : ℕ) (at : LowPc) (r : Started plain x)
        → asked + 10_001_000 ≤ deadline
        → IsCaught cycle asked deadline at x.sys
        → GoesOn plain x y
        → (w : Started plain y) → y.sys.starter_at ≡ MainPc.past_joins
        → Inverted w
    past-Inverted cycle asked deadline at r long caught l w e =
        let m = broken_machine fp granted cost clock 0 elapsed_ns measured_us (goes start w) in
        let same = broken_same m _ (returned-successes w e) in
        let (_, says, one) =
          past-Inverts fp granted cost clock 0 elapsed_ns measured_us (λ t. refl) usable lasts cycle
            asked deadline at (goes start r) long caught (goes r l) (goes start w) e in
        (e, ap (λ p. p.conclusion) same ∙ says, ap (λ p. p.status) same ∙ one)

    -- broken.cpp over a kernel that keeps the documentation of the two pthread calls and grants the
    -- three threads what they ask for, in which at first none of them has it, when the affinity call
    -- succeeds, the calibration is usable and a step may take a nanosecond: once the control loop waits
    -- for the lowest thread's critical section while the middle thread has a burst whose deadline is at
    -- least 10.001 ms after the loop asked, in every later state either `main` is past its joins,
    -- reports an inversion and returns 1, or it is not and some continuation over the kernel brings it
    -- there with that answer.
    pub broken_over_kernel :
        {x y : Machine os} (cycle asked deadline : ℕ) (at : LowPc) (r : Started plain x)
        → asked + 10_001_000 ≤ deadline
        → IsCaught cycle asked deadline at x.sys
        → (l : GoesOn plain x y)
        → Inverted (further r l)
          ⊎ ((y.sys.starter_at ≢ MainPc.past_joins)
              × ((z : Machine os) × (q : GoesOn plain y z) × Inverted (further (further r l) q)))
    broken_over_kernel {x} {y} cycle asked deadline at r long caught l =
        elim (past_or_not y.sys.starter_at) [
          | inl e ↦ inl (past-Inverted cycle asked deadline at r long caught l (further r l) e)
          | inr live ↦
              let whole = further r l in
              let (u, q, past) =
                can_finish granted plain measured.0.iterations lasts y.sys (goes start whole) in
              let (after, m) =
                lift os law grants measured.0.iterations plain cost clock measured.1 k unset whole
                  q in
              inr (
                live,
                (
                  record { sys = u; kernel = after },
                  m,
                  past-Inverted cycle asked deadline at r long caught
                      (Reach-trans os law grants measured.0.iterations l m) (further whole m) past,
                ),
              )
        ]
