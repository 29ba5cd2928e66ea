-- ===== src/Inversion/Threads/Kernel/Errors.antt =====
-- When the two `main` of case 06 refuse to conclude, over any kernel.
use systems_postmortems.Prelude.{
  ℕ, ◌+◌, ◌*◌, ◌/◌, ◌≤◌, ◌≡◌, ◌≢◌, ◌⊎◌, ◌↔◌, inl, inr, refl, Bool, Bool-cases, true, false, arith,
  ◌||◌,
}
use systems_postmortems.Prelude.Int.{ℤ, pos, ltb_ℤ}
use systems_postmortems.Inversion.Calibrate.{Calibration, Doubles, calibrate}
use systems_postmortems.Inversion.Priority.{Scheduling}
use systems_postmortems.Inversion.Priority.Granted.{successes}
use systems_postmortems.Inversion.Broken
use systems_postmortems.Inversion.Fixed
use systems_postmortems.Inversion.Threads.{Thread, low, medium, high, MainPc}
use systems_postmortems.Inversion.Threads.Scheduler.{Protocol, plain}
use systems_postmortems.Inversion.Threads.Refinement.{mutex_protocol}
use systems_postmortems.Inversion.Threads.Joins.{one_if}
use systems_postmortems.Inversion.Threads.Recorded.{waits_of}
use systems_postmortems.Inversion.Threads.Kernel.Returned.{returned, returned-rt_threads}
use systems_postmortems.Inversion.Threads.Answers.{IsUsable}
use systems_postmortems.Inversion.Threads.Kernel.{in_force, Machine, Reach, IsDocumented}
use systems_postmortems.Inversion.Threads.Kernel.Refinement.{begun, kernel_run}

-- The two statuses without a verdict: 3 for a calibration that is not usable, and 2 for one that is if
-- `Few` holds.
abbrev pub Refuses : (status : ℕ) → Calibration → (Few : Type 0) → Type 0
Refuses status c Few = ((status ≡ 3) ↔ (¬ (IsUsable c))) × ((status ≡ 2) ↔ (IsUsable c × Few))

-- What `main` tests of the measured time, in microseconds.
abbrev off_target : ℤ → Bool
off_target us = ltb_ℤ us (pos (5000 / 2)) || ltb_ℤ (pos (5000 * 2)) us

near-IsUsable : (c : Calibration) → off_target c.measured_us ≡ false → IsUsable c
near-IsUsable c e = record { long = ground arith; short = ground arith }

off-IsUsable : (c : Calibration) → off_target c.measured_us ≡ true → ¬ (IsUsable c)
off-IsUsable c e h = ground (arith, h.long, h.short)

refuses :
    (status : ℕ) (c : Calibration) (Few : Type 0)
    → (off_target c.measured_us ≡ true → status ≡ 3)
    → (off_target c.measured_us ≡ false → (status ≢ 3) × ((status ≡ 2) ↔ Few))
    → Refuses status c Few
refuses status c Few off near = elim (Bool-cases (off_target c.measured_us)) [
  | inl e ↦
      let no_use = off-IsUsable c e in
      (
        (λ q. no_use, λ n. off e),
        (λ q. absurd (ground (arith, q, off e)), λ h. absurd (no_use h.0)),
      )
  | inr e ↦
      let use_ = near-IsUsable c e in
      let (other, (few, few')) = near e in
      ((λ q. absurd (other q), λ n. absurd (n use_)), (λ q. (use_, few q), λ h. few' h.1))
]

broken_refuses :
    (fp : Doubles) (m : Broken.Machine)
    → Refuses
        (Broken.main fp m).status
        (calibrate fp (pos Broken.critical_us) m.elapsed_ns m.measured_us 0).0
        (successes m.granted ≤ 2)
unfolding Broken.main Broken.judge
broken_refuses fp m =
    refuses _ _ _ (λ e. rw e refl)
      (λ e. rw e (λ q. ground (arith, q), (λ q. ground (arith, q), λ le. ground (arith, le))))

fixed_refuses :
    (fp : Doubles) (m : Fixed.Machine)
    → Refuses
        (Fixed.main fp m).status
        (calibrate fp (pos Fixed.critical_us) m.elapsed_ns m.measured_us 0).0
        (successes m.granted ≤ 2)
unfolding Fixed.main Fixed.judge
fixed_refuses fp m =
    refuses _ _ _ (λ e. rw e refl)
      (λ e. rw e (λ q. ground (arith, q), (λ q. ground (arith, q), λ le. ground (arith, le))))

Refuses-same :
    {status : ℕ} {c : Calibration} {A B : Type 0} → A ↔ B → Refuses status c A → Refuses status c B
Refuses-same (to, from) (three, (two, two')) =
    (three, (λ q. let (u, a) = two q in (u, to a), λ (u, b). two' (u, from b)))

-- Some thread has not what it asked for.
abbrev pub Lacks : (Thread → Bool) → Type 0
Lacks g = (g low ≡ false) ⊎ (g medium ≡ false) ⊎ (g high ≡ false)

Lacks-sum :
    (g : Thread → Bool) → (one_if (g low) + one_if (g medium) + one_if (g high) ≤ 2) ↔ Lacks g
Lacks-sum g = (lacks (g low) (g medium) (g high), λ h. ground (arith, h))
  where
    lacks :
        (a b c : Bool)
        → one_if a + one_if b + one_if c ≤ 2
        → (a ≡ false) ⊎ (b ≡ false) ⊎ (c ≡ false)
    lacks false b c h = inl refl
    lacks true false c h = inr (inl refl)
    lacks true true false h = inr (inr refl)
    lacks true true true h = absurd (ground (arith, h))

module _ (fp : Doubles) (os : Scheduling) (law : IsDocumented os) (cost clock pin_rc : ℕ)
    (elapsed_ns measured_us : ℤ) (k : os.Kernel)
    (unset : (t : Thread) → in_force os k t ≡ false) where
  abbrev pub measured : Calibration × ℕ
  measured = calibrate fp (pos Broken.critical_us) elapsed_ns measured_us 0

  -- The runs over the kernel that follow the calibration.
  abbrev pub Starts : Protocol → Machine os → Type 0
  Starts protocol =
      Reach os measured.0.iterations protocol cost
        (begun os law measured.0.iterations protocol cost clock measured.1 k unset)

  -- The status of `main` over the machine whose threads get the answers of `setPriority`, and measure
  -- the waits, that the run has.
  abbrev pub broken_status : {x : Machine os} → Starts plain x → ℕ
  broken_status r =
      (Broken.main fp (record {
        pin_rc = pin_rc;
        elapsed_ns = elapsed_ns;
        measured_us = measured_us;
        granted = returned os measured.0.iterations r;
        waits =
            waits_of
              (kernel_run os law measured.0.iterations plain cost clock measured.1 k unset r).0;
      })).status

  abbrev pub fixed_status : (rc : ℕ) {x : Machine os} → Starts (mutex_protocol rc) x → ℕ
  fixed_status rc r =
      (Fixed.main fp (record {
        protocol_rc = rc;
        pin_rc = pin_rc;
        elapsed_ns = elapsed_ns;
        measured_us = measured_us;
        granted = returned os measured.0.iterations r;
        waits =
            waits_of
              (kernel_run os law measured.0.iterations (mutex_protocol rc) cost clock measured.1 k
                unset r).0;
      })).status

  returned-Lacks :
      {protocol : Protocol} {x : Machine os} (r : Starts protocol x)
      → (successes (returned os measured.0.iterations r) ≤ 2) ↔ Lacks (in_force os x.kernel)
  returned-Lacks {protocol} {x} r =
      let counted : successes (returned os measured.0.iterations r) + 0 ≡ x.sys.rt_threads =
        returned-rt_threads os measured.0.iterations r in
      let in_end =
        (kernel_run os law measured.0.iterations protocol cost clock measured.1 k unset r).1 in
      let (to, from) = Lacks-sum (in_force os x.kernel) in
      (λ le. to (omega (arith, counted, in_end)), λ h. omega (arith, counted, in_end, from h))

  -- Over a kernel that keeps the documentation of the two pthread calls, in which at first no thread
  -- has what it will ask for, for a run of each program to the last join in which the threads call
  -- `setPriority` and run with the priorities in force, broken.cpp with the default protocol and
  -- fixed.cpp with the one it could set: both `main`, over the machine that answers as the calls and
  -- the clock do in the run, return 3 exactly when the calibration is not usable, and 2 exactly when it
  -- is and some thread has not in the end what it asked for.
  pub kernel_refusals :
      (rc : ℕ) {x y : Machine os} (r : Starts plain x) (q : Starts (mutex_protocol rc) y)
      → x.sys.starter_at ≡ MainPc.past_joins
      → y.sys.starter_at ≡ MainPc.past_joins
      → Refuses (broken_status r) measured.0 (Lacks (in_force os x.kernel))
        × Refuses (fixed_status rc q) measured.0 (Lacks (in_force os y.kernel))
  kernel_refusals rc r q e f = (
    Refuses-same (returned-Lacks r) (broken_refuses fp _),
    Refuses-same (returned-Lacks q) (fixed_refuses fp _),
  )
