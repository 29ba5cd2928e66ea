-- ===== src/Inversion/Threads/Answers.antt =====
-- The exit statuses of the two `main` of case 06, from the calibration to the answer, over the machine
-- that answers as in a run of the threads.
mod Permissive
mod Tests
use systems_postmortems.Prelude.{
  ◌/◌, ℕ, ◌+◌, ◌*◌, ◌≤◌, ◌≡◌, ◌⊎◌, inl, inr, ◌≢◌, refl, ap, ◌∙◌, ◌==◌, Bool, true, arith,
}
use systems_postmortems.Prelude.Int.{ℤ, pos, ◌≤ℤ◌}
use systems_postmortems.Inversion.Calibrate.{Calibration, Doubles, calibrate}
use systems_postmortems.Inversion.Broken
use systems_postmortems.Inversion.Fixed
use systems_postmortems.Inversion.Threads.{Thread, LowPc, MainPc, System, initial}
use systems_postmortems.Inversion.Threads.Scheduler.{Protocol, plain, inherit, Reach, start}
use systems_postmortems.Inversion.Threads.Hog.{IsCaught}
use systems_postmortems.Inversion.Threads.Outcome.{Reach-trans, inherit-bounded, plain-inverted}
use systems_postmortems.Inversion.Threads.Finish.{can_finish}
use systems_postmortems.Inversion.Threads.Refinement.{
  mutex_protocol, calibrated, Run, broken_machine, fixed_machine, broken_main-judge,
  fixed_main-judge,
}

-- The measured critical section is within a factor of 2 of 5 ms.
pub record IsUsable (c : Calibration) : Type 0 where
  pub long : pos 2500 ≤ℤ c.measured_us
  pub short : c.measured_us ≤ℤ pos 10_000

-- Then `main` does not refuse the calibration.
broken_unrefused :
    (fp : Doubles) (m : Broken.Machine)
    → IsUsable (calibrate fp (pos Broken.critical_us) m.elapsed_ns m.measured_us 0).0
    → (Broken.main fp m).status ≤ 2
unfolding Broken.main Broken.judge
broken_unrefused fp m c = ground (arith, c.long, c.short)

fixed_unrefused :
    (fp : Doubles) (m : Fixed.Machine)
    → IsUsable (calibrate fp (pos Fixed.critical_us) m.elapsed_ns m.measured_us 0).0
    → (Fixed.main fp m).status ≤ 2
unfolding Fixed.main Fixed.judge
fixed_unrefused fp m c = ground (arith, c.long, c.short)

pub past_or_not : (p : MainPc) → (p ≡ MainPc.past_joins) ⊎ (p ≢ MainPc.past_joins)
past_or_not MainPc.past_joins = inl refl
past_or_not MainPc.create_low = inr (λ q. ground (arith, q))
past_or_not MainPc.create_medium = inr (λ q. ground (arith, q))
past_or_not MainPc.doze = inr (λ q. ground (arith, q))
past_or_not (MainPc.asleep wake) = inr (λ q. ground (arith, q))
past_or_not MainPc.create_high = inr (λ q. ground (arith, q))
past_or_not MainPc.join_high = inr (λ q. ground (arith, q))
past_or_not MainPc.stop = inr (λ q. ground (arith, q))
past_or_not MainPc.join_low = inr (λ q. ground (arith, q))
past_or_not MainPc.join_medium = inr (λ q. ground (arith, q))

module _ (fp : Doubles) (granted : Thread → Bool) (cost clock pin_rc : ℕ)
    (elapsed_ns measured_us : ℤ) where
  abbrev calibration : Calibration
  calibration = (calibrated fp granted cost clock pin_rc elapsed_ns measured_us).0

  abbrev Runs : Protocol → System → Type 0
  Runs protocol s = Run fp granted cost clock pin_rc elapsed_ns measured_us protocol s

  abbrev broken_report : {s : System} → Runs plain s → Broken.Report
  broken_report r =
      Broken.main fp (broken_machine fp granted cost clock pin_rc elapsed_ns measured_us r)

  abbrev fixed_report : {s : System} → Runs (mutex_protocol 0) s → Fixed.Report
  fixed_report r =
      Fixed.main fp (fixed_machine fp granted cost clock pin_rc elapsed_ns measured_us 0 r)

  -- `main` is past its joins, reports an inversion and returns 1.
  abbrev pub Inverts : {s : System} → Runs plain s → Type 0
  Inverts {s} r =
      (s.starter_at ≡ MainPc.past_joins)
      × ((broken_report r).conclusion ≡ Broken.inverted)
      × ((broken_report r).status ≡ 1)

  -- `main` is past its joins, says that the wait is bounded and returns 0.
  abbrev pub IsBounded : {s : System} → Runs (mutex_protocol 0) s → Type 0
  IsBounded {s} r =
      (s.starter_at ≡ MainPc.past_joins)
      × ((fixed_report r).conclusion ≡ Fixed.bounded)
      × ((fixed_report r).status ≡ 0)

  module _ (all : (t : Thread) → granted t ≡ true) (usable : IsUsable calibration)
      (lasts : 1 ≤ cost) where
    pub past-IsBounded :
        {s : System} (r : Runs (mutex_protocol 0) s)
        → (calibration.iterations + 4) * cost ≤ 10_000_000
        → s.starter_at ≡ MainPc.past_joins
        → IsBounded r
    unfolding mutex_protocol
    past-IsBounded {s} r fits e =
        elim (fixed_main-judge fp granted cost clock pin_rc elapsed_ns measured_us 0 r e) [
          | inl refused ↦ absurd (
              ground (
                arith,
                refused,
                fixed_unrefused fp
                    (fixed_machine fp granted cost clock pin_rc elapsed_ns measured_us 0 r) usable,
              ))
          | inr same ↦
              let (says, zero_) =
                inherit-bounded granted calibration.iterations all cost calibration true
                  (pin_rc == 0) fits r e in
              (e, ap (λ p. p.conclusion) same ∙ says, ap (λ p. p.status) same ∙ zero_)
        ]

    pub past-Inverts :
        {s u : System} (cycle asked deadline : ℕ) (at : LowPc) (r : Runs plain s)
        → asked + 10_001_000 ≤ deadline
        → IsCaught cycle asked deadline at s
        → (l : Reach granted plain calibration.iterations cost s u) → (w : Runs plain u)
        → u.starter_at ≡ MainPc.past_joins
        → Inverts w
    past-Inverts cycle asked deadline at r long caught l w e =
        elim (broken_main-judge fp granted cost clock pin_rc elapsed_ns measured_us w e) [
          | inl refused ↦ absurd (
              ground (
                arith,
                refused,
                broken_unrefused fp
                    (broken_machine fp granted cost clock pin_rc elapsed_ns measured_us w) usable,
              ))
          | inr same ↦
              let (least, says, one) =
                plain-inverted granted calibration.iterations all cost calibration (pin_rc == 0)
                  cycle asked deadline at long r caught l e in
              (e, ap (λ p. p.conclusion) same ∙ says, ap (λ p. p.status) same ∙ one)
        ]
