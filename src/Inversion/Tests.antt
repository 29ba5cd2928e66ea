-- ===== src/Inversion/Tests.antt =====
-- Runs of case 06, and its theorems at concrete inputs.
use systems_postmortems.Prelude.{
  ℕ, ◌≡◌, ◌↔◌, refl, Bool, true, List, [], ◌∷◌, if◌then◌else◌, ◌==◌, arith,
}
use systems_postmortems.Prelude.Int.{ℤ, pos}
use systems_postmortems.Inversion.Priority.{Scheduling, State, set_priority}
use systems_postmortems.Inversion.Priority.Granted.{Requests, ask_all, successes}
use systems_postmortems.Inversion.Work.{or_one, spin_work}
use systems_postmortems.Inversion.Work.Skip.{apply, skip, spin_work-skip}
use systems_postmortems.Inversion.Calibrate.{Doubles, calibrate}
use systems_postmortems.Inversion.Control.{control}
use systems_postmortems.Inversion.Broken
use systems_postmortems.Inversion.Fixed
use systems_postmortems.Inversion.Verdict.{IsConclusive, WaitedLong, main_iff}

-- A kernel that grants thread 0 whatever it asks for, and refuses all others.
abbrev picky : Scheduling
picky = record {
  Kernel = ℕ × ℕ;
  set_param = λ thread policy priority k. if thread == 0 then (0, (policy, priority)) else (1, k);
  get_param = λ thread k. (0, k.0, k.1);
}

abbrev asked : State picky
asked = record { kernel = (0, 0); rt_threads = 0 }

abbrev requests : Requests picky
requests = (0, 1, 10) ∷ (1, 1, 50) ∷ (2, 1, 90) ∷ []

one_granted : (ask_all picky requests asked).1.rt_threads ≡ 1
unfolding ask_all set_priority
one_granted = refl

-- The probe of `calibrate`, from a sink of 0, without running its 20 million rounds.
probe_result : apply (skip 25 20_000_000) (or_one 0) ≡ 8_843_630_203_987_260_673
unfolding apply skip
probe_result = refl

spin_work-skip_example : spin_work 20_000_000 0 ≡ apply (skip 25 20_000_000) (or_one 0)
spin_work-skip_example = spin_work-skip 25 20_000_000 0 (omega arith) (omega arith)

-- Waits of 4 ms, and one of 15246 us in cycle 7.
abbrev waits : ℕ → ℤ
waits k = if k == 7 then pos 15_246 else pos 4000

-- Numbers in place of doubles: every answer is the first operand.
abbrev whole : Doubles
whole = record {
  Double = ℤ;
  of_int = λ a. a;
  over = λ a b. a;
  times = λ a b. a;
  to_u64 = λ a. 5_284_763;
}

abbrev all_three : List Bool
all_three = true ∷ true ∷ true ∷ []

abbrev inverted_run : Broken.Machine
inverted_run = record {
  pin_rc = 0;
  elapsed_ns = pos 18_900_000;
  measured_us = pos 4215;
  granted = all_three;
  waits = waits;
}

abbrev same_run : Fixed.Machine
same_run = record {
  protocol_rc = 0;
  pin_rc = 0;
  elapsed_ns = pos 18_900_000;
  measured_us = pos 4215;
  granted = all_three;
  waits = waits;
}

inverted_run_status : (Broken.main whole inverted_run).status ≡ 1
unfolding Broken.main control successes calibrate
inverted_run_status = refl

main_iff_example :
    ((((Broken.main whole inverted_run).status ≡ 1)
        ↔ (IsConclusive (Broken.main whole inverted_run).calibration all_three × WaitedLong waits))
      × (((Broken.main whole inverted_run).status ≡ 0) ↔ (
          IsConclusive (Broken.main whole inverted_run).calibration all_three
          × ¬ (WaitedLong waits))))
    × (((Fixed.main whole same_run).status ≡ 0)
        ↔ (IsConclusive (Fixed.main whole same_run).calibration all_three × ¬ (WaitedLong waits)))
    × (((Fixed.main whole same_run).status ≡ 0)
        ↔ ((Fixed.main whole same_run).conclusion ≡ Fixed.bounded))
main_iff_example = main_iff whole inverted_run same_run
