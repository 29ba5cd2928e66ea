-- ===== src/Inversion/Verdict.antt =====
-- What the exit statuses of case 06 mean, in terms of what the machine answered.
use native.Mathlib.Decide.{dec_le}
use systems_postmortems.Prelude.{
  ℕ, ◌≤◌, ◌<◌, ◌≡◌, ◌↔◌, inl, inr, Bool, List, true, none, arith, refl, ◌∙◌, sym, subst,
}
use systems_postmortems.Prelude.Int.{ℤ, pos, leb_ℤ, ◌≤ℤ◌, pos_part}
use systems_postmortems.Inversion.Calibrate.{Calibration, Doubles, calibrate, probe}
use systems_postmortems.Inversion.Control.{cycles, control}
use systems_postmortems.Inversion.Control.Worst.{control-max}
use systems_postmortems.Inversion.Priority.Granted.{successes}
use systems_postmortems.Inversion.Broken
use systems_postmortems.Inversion.Fixed

-- The measured critical section is within a factor of 2 of 5 ms, and three threads are real-time.
pub record IsConclusive (c : Calibration) (granted : List Bool) : Type 0 where
  pub long : pos 2500 ≤ℤ c.measured_us
  pub short : c.measured_us ≤ℤ pos 10_000
  pub granted_all : 3 ≤ successes granted

-- Some cycle waited for more than 10 ms.
abbrev pub WaitedLong : (ℕ → ℤ) → Type 0
WaitedLong waits = (k : ℕ) × (k < cycles) × (pos 10_001 ≤ℤ waits k)

worst_long : (waits : ℕ → ℤ) → pos 10_001 ≤ℤ control waits (pos 0) → WaitedLong waits
worst_long waits h = elim (control-max waits (pos 0)).2 [
  | inl e ↦ absurd (ground arith)
  | inr (k, lt, e) ↦ (k, lt, rw e at h)
]

not_long : (waits : ℕ → ℤ) → ¬ (WaitedLong waits) → control waits (pos 0) ≤ℤ pos 10_000
not_long waits none_long = elim (dec_le (pos_part (control waits (pos 0))) 10_000) [
  | yes le ↦ omega arith
  | no gt ↦ absurd (none_long (worst_long waits (ground arith)))
]

worst_short : (waits : ℕ → ℤ) → WaitedLong waits → pos 10_001 ≤ℤ control waits (pos 0)
worst_short waits (k, lt, h) = omega (arith, (control-max waits (pos 0)).1 k lt)

module _ (fp : Doubles) (m : Broken.Machine) where
  abbrev broken_report : Broken.Report
  broken_report = Broken.main fp m

  abbrev broken_worst : ℤ
  broken_worst = control m.waits (pos 0)

  broken_status :
      ((broken_report.status ≡ 1)
        ↔ (IsConclusive broken_report.calibration m.granted × (pos 10_001 ≤ℤ broken_worst)))
      × ((broken_report.status ≡ 0)
          ↔ (IsConclusive broken_report.calibration m.granted × (broken_worst ≤ℤ pos 10_000)))
  unfolding Broken.main
  broken_status = ((λ h. ground arith, λ h. ground arith), (λ h. ground arith, λ h. ground arith))

  -- broken.cpp returns 1 exactly when the measurement is conclusive and some cycle of the control loop
  -- waited for more than 10 ms, and 0 exactly when it is conclusive and none did.
  broken_main_iff :
      (((Broken.main fp m).status ≡ 1)
        ↔ (IsConclusive (Broken.main fp m).calibration m.granted × WaitedLong m.waits))
      × (((Broken.main fp m).status ≡ 0)
          ↔ (IsConclusive (Broken.main fp m).calibration m.granted × ¬ (WaitedLong m.waits)))
  broken_main_iff =
      let ((one, one'), (zero', zero'')) = broken_status in
      (
        (λ h. ((one h).0, worst_long m.waits (one h).1), λ h. one' (h.0, worst_short m.waits h.1)),
        (
          λ h. ((zero' h).0, λ w. absurd (omega (arith, (zero' h).1, worst_short m.waits w))),
          λ h. zero'' (h.0, not_long m.waits h.1),
        ),
      )

-- Two machines, one for each program, that answer alike. What the lock's protocol does to the waits is
-- the machines' affair; the two programs judge the same waits alike.
record SameAnswers (m : Broken.Machine) (n : Fixed.Machine) : Type 0 where
  elapsed_ns : m.elapsed_ns ≡ n.elapsed_ns
  measured_us : m.measured_us ≡ n.measured_us
  granted : m.granted ≡ n.granted
  waits : m.waits ≡ n.waits

-- On the same clock readings, grants and waits the two programs return the same status, 0 to 3, the
-- same calibration and the same measurement, and the broken one reports an inversion exactly when the
-- fixed one reports that the wait exceeds the bound.
main_agree :
    (fp : Doubles) (m : Broken.Machine) (n : Fixed.Machine)
    → SameAnswers m n
    → ((Broken.main fp m).status ≡ (Fixed.main fp n).status)
      × ((Broken.main fp m).status ≤ 3)
      × (((Broken.main fp m).conclusion ≡ Broken.inverted)
          ↔ ((Fixed.main fp n).conclusion ≡ Fixed.still_exceeds))
      × ((Broken.main fp m).calibration ≡ (Fixed.main fp n).calibration)
      × ((Broken.main fp m).measured ≡ (Fixed.main fp n).measured)
unfolding Broken.main Fixed.main
main_agree fp m n s =
    rw (s.elapsed_ns, s.measured_us, s.granted, s.waits)
      (
        ground arith,
        ground arith,
        (λ h. ground arith, λ h. ground arith),
        ground arith,
        ground arith,
      )

-- fixed.cpp says "bounded" and returns 0 exactly when the measurement is conclusive and no cycle of
-- the control loop waited for more than 10 ms.
fixed_main_iff :
    (fp : Doubles) (n : Fixed.Machine)
    → (((Fixed.main fp n).status ≡ 0)
        ↔ (IsConclusive (Fixed.main fp n).calibration n.granted × ¬ (WaitedLong n.waits)))
      × (((Fixed.main fp n).status ≡ 0) ↔ ((Fixed.main fp n).conclusion ≡ Fixed.bounded))
unfolding Fixed.main
fixed_main_iff fp n =
    let m : Broken.Machine = record {
      pin_rc = n.pin_rc;
      elapsed_ns = n.elapsed_ns;
      measured_us = n.measured_us;
      granted = n.granted;
      waits = n.waits;
    } in
    let same =
      main_agree fp m n
        (record { elapsed_ns = refl; measured_us = refl; granted = refl; waits = refl }) in
    let (there, back) = (broken_main_iff fp m).1 in
    (
      (
        λ h.
            subst (λ c. IsConclusive c n.granted × ¬ (WaitedLong n.waits)) same.3
              (there (same.0 ∙ h)),
        λ h.
            sym same.0
            ∙ back (subst (λ c. IsConclusive c n.granted × ¬ (WaitedLong n.waits)) (sym same.3) h),
      ),
      (λ h. ground arith, λ h. ground arith),
    )

-- Call a run conclusive if the calibration is within a factor of 2 of 5 ms and at least three requests
-- were granted. broken.cpp returns 1 exactly when its run is conclusive and some of the 600 cycles
-- waited for more than 10 ms, and 0 exactly when it is and no cycle did. fixed.cpp returns 0 exactly
-- when its run is conclusive and no cycle waited for more than 10 ms, and exactly when it says that the
-- wait is bounded.
pub main_iff :
    (fp : Doubles) (m : Broken.Machine) (n : Fixed.Machine)
    → ((((Broken.main fp m).status ≡ 1)
          ↔ (IsConclusive (Broken.main fp m).calibration m.granted × WaitedLong m.waits))
        × (((Broken.main fp m).status ≡ 0)
            ↔ (IsConclusive (Broken.main fp m).calibration m.granted × ¬ (WaitedLong m.waits))))
      × (((Fixed.main fp n).status ≡ 0)
          ↔ (IsConclusive (Fixed.main fp n).calibration n.granted × ¬ (WaitedLong n.waits)))
      × (((Fixed.main fp n).status ≡ 0) ↔ ((Fixed.main fp n).conclusion ≡ Fixed.bounded))
main_iff fp m n = let (answers, says) = fixed_main_iff fp n in (broken_main_iff fp m, answers, says)

-- If the clock measures no time for the probe, both programs refuse to conclude: whatever the floating
-- point and the rest of the machine do, they return 3 with no measurement, and the iterations stay
-- those of the probe.
main-refused :
    (fp : Doubles) (m : Broken.Machine) (n : Fixed.Machine)
    → m.elapsed_ns ≤ℤ pos 0
    → n.elapsed_ns ≤ℤ pos 0
    → ((Broken.main fp m).status ≡ 3)
      × ((Broken.main fp m).measured ≡ none)
      × ((Broken.main fp m).calibration.iterations ≡ probe)
      × ((Fixed.main fp n).status ≡ 3)
      × ((Fixed.main fp n).measured ≡ none)
      × ((Fixed.main fp n).calibration.iterations ≡ probe)
unfolding Broken.main Fixed.main calibrate
main-refused fp m n hm hn =
    let stopped_m : leb_ℤ m.elapsed_ns (pos 0) ≡ true = ground arith in
    let stopped_n : leb_ℤ n.elapsed_ns (pos 0) ≡ true = ground arith in
    rw (stopped_m, stopped_n) (refl, refl, refl, refl, refl, refl)
