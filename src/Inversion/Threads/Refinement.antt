-- ===== src/Inversion/Threads/Refinement.antt =====
-- The two `main` of case 06 over what the machine answers, when it is the threads that make the waits.
use systems_postmortems.Prelude.{
  ℕ, ◌≡◌, refl, ap, sym, ◌∙◌, ◌⊎◌, inl, inr, Bool, Bool-cases, List, [], ◌∷◌, ◌==◌, ◌||◌, ◌/◌, ◌*◌,
  ◌+◌, if◌then◌else◌, arith,
}
use systems_postmortems.Prelude.Int.{ℤ, pos, ltb_ℤ}
use systems_postmortems.Inversion.Calibrate.{Calibration, Doubles, calibrate}
use systems_postmortems.Inversion.Control.{control}
use systems_postmortems.Inversion.Priority.Granted.{successes}
use systems_postmortems.Inversion.Broken
use systems_postmortems.Inversion.Fixed
use systems_postmortems.Inversion.Fixed.{critical_us}
use systems_postmortems.Inversion.Threads.{Thread, low, medium, high, MainPc, System, initial}
use systems_postmortems.Inversion.Threads.Scheduler.{Protocol, plain, inherit, Reach}
use systems_postmortems.Inversion.Threads.Joins.{past_joins-rt_threads, one_if}
use systems_postmortems.Inversion.Threads.Recorded.{waits_of}
use systems_postmortems.Inversion.Threads.Recorded.Kept.{ended-control}

-- The protocol of g_shared in fixed.cpp, for the return code of pthread_mutexattr_setprotocol; the
-- default is none.
unfoldable pub mutex_protocol : ℕ → Protocol
mutex_protocol rc = if rc == 0 then inherit else plain

-- What `setPriority` answers the three threads.
abbrev pub answers : (Thread → Bool) → List Bool
answers granted = granted low ∷ granted medium ∷ granted high ∷ []

pub successes-answers :
    (granted : Thread → Bool)
    → successes (answers granted)
      ≡ one_if (granted low) + one_if (granted medium) + one_if (granted high)
unfolding successes
successes-answers granted = ground arith

broken_judged :
    (fp : Doubles) (m : Broken.Machine)
    → ((Broken.main fp m).status ≡ 3)
      ⊎ (Broken.main fp m
          ≡ Broken.judge
              (m.pin_rc == 0)
              (calibrate fp (pos critical_us) m.elapsed_ns m.measured_us 0).0
              (successes m.granted)
              (control m.waits (pos 0)))
unfolding Broken.main
broken_judged fp m =
    let c = (calibrate fp (pos critical_us) m.elapsed_ns m.measured_us 0).0 in
    elim (Bool-cases (
      ltb_ℤ c.measured_us (pos (critical_us / 2)) || ltb_ℤ (pos (critical_us * 2)) c.measured_us)) [
        | inl off ↦ rw off (inl refl)
        | inr near ↦ rw near (inr refl)
      ]

fixed_judged :
    (fp : Doubles) (m : Fixed.Machine)
    → ((Fixed.main fp m).status ≡ 3)
      ⊎ (Fixed.main fp m
          ≡ Fixed.judge
              (m.protocol_rc == 0)
              (m.pin_rc == 0)
              (calibrate fp (pos critical_us) m.elapsed_ns m.measured_us 0).0
              (successes m.granted)
              (control m.waits (pos 0)))
unfolding Fixed.main
fixed_judged fp m =
    let c = (calibrate fp (pos critical_us) m.elapsed_ns m.measured_us 0).0 in
    elim (Bool-cases (
      ltb_ℤ c.measured_us (pos (critical_us / 2)) || ltb_ℤ (pos (critical_us * 2)) c.measured_us)) [
        | inl off ↦ rw off (inl refl)
        | inr near ↦ rw near (inr refl)
      ]

module _ (fp : Doubles) (granted : Thread → Bool) (cost clock pin_rc : ℕ)
    (elapsed_ns measured_us : ℤ) where
  -- The calibration, and the sink after it.
  abbrev pub calibrated : Calibration × ℕ
  calibrated = calibrate fp (pos critical_us) elapsed_ns measured_us 0

  -- The runs of the threads that `main` starts after the calibration.
  abbrev pub Run : Protocol → System → Type 0
  Run protocol s =
      Reach granted protocol calibrated.0.iterations cost (initial clock calibrated.1) s

  counted :
      {protocol : Protocol} {s : System}
      → Run protocol s
      → s.starter_at ≡ MainPc.past_joins
      → successes (answers granted) ≡ s.rt_threads
  counted r q =
      successes-answers granted ∙ sym (past_joins-rt_threads granted calibrated.0.iterations r q).3

  left_behind :
      {protocol : Protocol} {s : System} (r : Run protocol s)
      → s.starter_at ≡ MainPc.past_joins
      → control (waits_of r) (pos 0) ≡ s.worst
  left_behind r q = sym (
      ended-control granted calibrated.0.iterations r
        (past_joins-rt_threads granted calibrated.0.iterations r q).2)

  abbrev pub broken_machine : {s : System} → Run plain s → Broken.Machine
  broken_machine r = record {
    pin_rc = pin_rc;
    elapsed_ns = elapsed_ns;
    measured_us = measured_us;
    granted = answers granted;
    waits = waits_of r;
  }

  abbrev pub fixed_machine :
      (protocol_rc : ℕ) {s : System} → Run (mutex_protocol protocol_rc) s → Fixed.Machine
  fixed_machine protocol_rc r = record {
    protocol_rc = protocol_rc;
    pin_rc = pin_rc;
    elapsed_ns = elapsed_ns;
    measured_us = measured_us;
    granted = answers granted;
    waits = waits_of r;
  }

  pub broken_main-judge :
      {s : System} (r : Run plain s)
      → s.starter_at ≡ MainPc.past_joins
      → ((Broken.main fp (broken_machine r)).status ≡ 3)
        ⊎ (Broken.main fp (broken_machine r)
            ≡ Broken.judge (pin_rc == 0) calibrated.0 s.rt_threads s.worst)
  broken_main-judge {s} r e = elim (broken_judged fp (broken_machine r)) [
    | inl refused ↦ inl refused
    | inr same ↦ inr (
        same
        ∙ ap (λ rt. Broken.judge (pin_rc == 0) calibrated.0 rt (control (waits_of r) (pos 0)))
            (counted r e)
        ∙ ap (λ w. Broken.judge (pin_rc == 0) calibrated.0 s.rt_threads w) (left_behind r e))
  ]

  pub fixed_main-judge :
      (protocol_rc : ℕ) {t : System} (q : Run (mutex_protocol protocol_rc) t)
      → t.starter_at ≡ MainPc.past_joins
      → ((Fixed.main fp (fixed_machine protocol_rc q)).status ≡ 3)
        ⊎ (Fixed.main fp (fixed_machine protocol_rc q)
            ≡ Fixed.judge (protocol_rc == 0) (pin_rc == 0) calibrated.0 t.rt_threads t.worst)
  fixed_main-judge protocol_rc {t} q f = elim (fixed_judged fp (fixed_machine protocol_rc q)) [
    | inl refused ↦ inl refused
    | inr same ↦ inr (
        same
        ∙ ap
            (λ rt.
              Fixed.judge (protocol_rc == 0) (pin_rc == 0) calibrated.0 rt
                (control (waits_of q) (pos 0)))
            (counted q f)
        ∙ ap (λ w. Fixed.judge (protocol_rc == 0) (pin_rc == 0) calibrated.0 t.rt_threads w)
            (left_behind q f))
  ]

  -- For any run of the threads to the last join, `main` over the machine that answers as in that run
  -- refuses the calibration and returns 3, or judges the values of g_rt_threads and g_worst_block_us
  -- that the run leaves: broken.cpp with the default protocol, fixed.cpp with the one it could set.
  pub main-judge :
      (protocol_rc : ℕ) {s t : System} (r : Run plain s) (q : Run (mutex_protocol protocol_rc) t)
      → s.starter_at ≡ MainPc.past_joins
      → t.starter_at ≡ MainPc.past_joins
      → (((Broken.main fp (broken_machine r)).status ≡ 3)
          ⊎ (Broken.main fp (broken_machine r)
              ≡ Broken.judge (pin_rc == 0) calibrated.0 s.rt_threads s.worst))
        × (((Fixed.main fp (fixed_machine protocol_rc q)).status ≡ 3)
            ⊎ (Fixed.main fp (fixed_machine protocol_rc q)
                ≡ Fixed.judge (protocol_rc == 0) (pin_rc == 0) calibrated.0 t.rt_threads t.worst))
  main-judge protocol_rc r q e f = (broken_main-judge r e, fixed_main-judge protocol_rc q f)
