-- ===== src/Inversion/Threads/Answers/Tests.antt =====
-- Whole runs of case 06 behind a calibration, under each protocol.
use systems_postmortems.Prelude.{ℕ, ◌+◌, ◌*◌, ◌≤◌, ◌≡◌, ◌⊎◌, refl, true, arith}
use systems_postmortems.Prelude.Int.{pos}
use systems_postmortems.Inversion.Calibrate.{Doubles, calibrate}
use systems_postmortems.Inversion.Broken
use systems_postmortems.Inversion.Fixed
use systems_postmortems.Inversion.Threads.{LowPc, MainPc, System, execute, wake_up, initial}
use systems_postmortems.Inversion.Threads.Scheduler.{
  Protocol, plain, inherit, priority, Reach, start,
}
use systems_postmortems.Inversion.Threads.Simulation.{always, takes, cheap, rounds, rounds-Reach}
use systems_postmortems.Inversion.Threads.Hog.{IsCaught}
use systems_postmortems.Inversion.Threads.Outcome.{Reach-trans}
use systems_postmortems.Inversion.Threads.Answers.{IsUsable}
use systems_postmortems.Threads.Table.{}
use systems_postmortems.Inversion.Priority.{}
use systems_postmortems.Inversion.Threads.Kernel.{}
use systems_postmortems.Inversion.Threads.Kernel.Generous.{}
use systems_postmortems.Inversion.Threads.Kernel.Answers.{}
use systems_postmortems.Inversion.Threads.Refinement.{
  mutex_protocol, calibrated, Run, broken_machine, fixed_machine, main-judge,
}

-- Numbers in place of doubles, every conversion back being 3.
abbrev pub whole : Doubles
whole = record { Double = ℕ; of_int = λ a. 2; over = λ a b. a; times = λ a b. a; to_u64 = λ a. 3 }

abbrev pub first : System
first = initial 0 (calibrated whole always 1_000_000 0 0 (pos 220) (pos 4800)).1

abbrev simulate : Protocol → ℕ → System → System
simulate p n s = rounds always p 3 takes 500_000 n s

-- The thread of the lowest priority is about to unlock, and the middle one is in a burst.
pub stuck : System
stuck = simulate plain 160 first

pub plain_end : System
plain_end = simulate plain 4840 stuck

pub plain_end_joined : plain_end.starter_at ≡ MainPc.past_joins
unfolding plain_end stuck rounds execute wake_up priority
plain_end_joined = refl

pub stuck-Run : Run whole always 1_000_000 0 0 (pos 220) (pos 4800) plain stuck
unfolding stuck calibrate
stuck-Run = rounds-Reach always plain 3 takes 500_000 1_000_000 cheap 160 first start

pub stuck-IsCaught : IsCaught 9 100_050_000 125_151_000 LowPc.release stuck
unfolding stuck rounds execute wake_up priority calibrate
stuck-IsCaught = record { waiting = refl; held = refl; inside = refl; busy = refl }

pub plain_end-Reach : Reach always plain 3 1_000_000 stuck plain_end
unfolding plain_end
plain_end-Reach = rounds-Reach always plain 3 takes 500_000 1_000_000 cheap 4840 stuck start

plain_end-Run : Run whole always 1_000_000 0 0 (pos 220) (pos 4800) plain plain_end
unfolding calibrate
plain_end-Run = Reach-trans stuck-Run plain_end-Reach

pub inherit_end : System
inherit_end = simulate inherit 4200 first

pub inherit_end_joined : inherit_end.starter_at ≡ MainPc.past_joins
unfolding inherit_end rounds execute wake_up priority
inherit_end_joined = refl

pub inherit_end-Run :
    Run whole always 1_000_000 0 0 (pos 220) (pos 4800) (mutex_protocol 0) inherit_end
unfolding inherit_end calibrate mutex_protocol
inherit_end-Run = rounds-Reach always inherit 3 takes 500_000 1_000_000 cheap 4200 first start

main-judge_example :
    (((Broken.main whole
          (broken_machine whole always 1_000_000 0 0 (pos 220) (pos 4800) plain_end-Run)).status
        ≡ 3)
      ⊎ (Broken.main whole
            (broken_machine whole always 1_000_000 0 0 (pos 220) (pos 4800) plain_end-Run)
          ≡ Broken.judge true
              (calibrated whole always 1_000_000 0 0 (pos 220) (pos 4800)).0
              plain_end.rt_threads
              plain_end.worst))
    × (((Fixed.main whole (
            fixed_machine whole always 1_000_000 0 0 (pos 220) (pos 4800) 0 inherit_end-Run)).status
          ≡ 3)
        ⊎ (Fixed.main whole
              (fixed_machine whole always 1_000_000 0 0 (pos 220) (pos 4800) 0 inherit_end-Run)
            ≡ Fixed.judge true true
                (calibrated whole always 1_000_000 0 0 (pos 220) (pos 4800)).0
                inherit_end.rt_threads
                inherit_end.worst))
main-judge_example =
    main-judge whole always 1_000_000 0 0 (pos 220) (pos 4800) 0 plain_end-Run inherit_end-Run
      plain_end_joined inherit_end_joined

pub usable : IsUsable (calibrated whole always 1_000_000 0 0 (pos 220) (pos 4800)).0
unfolding calibrate
usable = record { long = omega arith; short = omega arith }

pub fits :
    ((calibrated whole always 1_000_000 0 0 (pos 220) (pos 4800)).0.iterations + 4) * 1_000_000
    ≤ 10_000_000
unfolding calibrate
fits = omega arith
