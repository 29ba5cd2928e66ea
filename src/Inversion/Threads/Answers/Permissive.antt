-- ===== src/Inversion/Threads/Answers/Permissive.antt =====
-- The runs of the tests of case 06 over a kernel that grants every request.
use systems_postmortems.Prelude.{ℕ, ◌≡◌, ◌≢◌, ◌⊎◌, ◌↔◌, refl, false, arith}
use systems_postmortems.Prelude.Int.{pos}
use systems_postmortems.Inversion.Calibrate.{calibrate}
use systems_postmortems.Inversion.Threads.{
  Thread, starter, low, medium, high, LowPc, MainPc, initial,
}
use systems_postmortems.Inversion.Threads.Scheduler.{plain, Reach}
use systems_postmortems.Inversion.Threads.Simulation.{always}
use systems_postmortems.Inversion.Threads.Hog.{}
use systems_postmortems.Inversion.Threads.Outcome.{}
use systems_postmortems.Threads.Table.{store}
use systems_postmortems.Inversion.Priority.{Scheduling}
use systems_postmortems.Inversion.Threads.Kernel
use systems_postmortems.Inversion.Threads.Kernel.{Machine, in_force, IsDocumented}
use systems_postmortems.Inversion.Threads.Kernel.Errors.{
  Refuses, Lacks, measured, Starts, broken_status, fixed_status, kernel_refusals,
}
use systems_postmortems.Inversion.Threads.Kernel.Granting.{IsGenerous}
use systems_postmortems.Inversion.Threads.Kernel.Generous.{Runs, lift, generous_run}
use systems_postmortems.Inversion.Threads.Kernel.Answers.{
  Started, GoesOn, Bounded, Inverted, further, fixed_over_kernel, broken_over_kernel,
}
use systems_postmortems.Inversion.Threads.Refinement.{mutex_protocol}
use systems_postmortems.Inversion.Threads.Answers.Tests.{
  whole, first, stuck, plain_end, stuck-Run, stuck-IsCaught, plain_end-Reach, plain_end_joined,
  inherit_end_joined, inherit_end, inherit_end-Run, usable, fits,
}

-- Every request is granted, and the kernel keeps the policy and the priority of each thread.
abbrev permissive : Scheduling
permissive = record {
  Kernel = ℕ → ℕ × ℕ;
  set_param = λ t policy p k. (0, store k t (policy, p));
  get_param = λ t k. (0, (k t).0, (k t).1);
}

permissive-IsDocumented : IsDocumented permissive
permissive-IsDocumented = record {
  fails = λ t policy p u k bad. absurd (bad refl);
  others = λ t policy p u k ne. ground arith;
}

permissive-IsGenerous : IsGenerous permissive
permissive-IsGenerous = record { gives = λ t k other. ground arith }

abbrev fresh : ℕ → ℕ × ℕ
fresh t = (0, 0)

fresh-unset : (t : Thread) → in_force permissive fresh t ≡ false
fresh-unset = elim [ starter ↦ refl | low ↦ refl | medium ↦ refl | high ↦ refl ]

-- The run with inheritance over this kernel, and the two parts of the one without.
inherit_lifted :
    (k : ℕ → ℕ × ℕ) × Started whole permissive permissive-IsDocumented permissive-IsGenerous
      1_000_000 0
      (pos 220)
      (pos 4800)
      fresh
      fresh-unset
      (mutex_protocol 0)
      (record { sys = inherit_end; kernel = k })
unfolding calibrate
inherit_lifted =
    lift permissive permissive-IsDocumented permissive-IsGenerous _ (mutex_protocol 0) 1_000_000 0 _
      fresh fresh-unset Kernel.start inherit_end-Run

stuck_lifted :
    (k : ℕ → ℕ × ℕ) × Started whole permissive permissive-IsDocumented permissive-IsGenerous
      1_000_000 0
      (pos 220)
      (pos 4800)
      fresh
      fresh-unset
      plain
      (record { sys = stuck; kernel = k })
unfolding calibrate
stuck_lifted =
    lift permissive permissive-IsDocumented permissive-IsGenerous _ plain 1_000_000 0 _ fresh
      fresh-unset Kernel.start stuck-Run

plain_lifted :
    (k : ℕ → ℕ × ℕ) × GoesOn whole permissive permissive-IsDocumented permissive-IsGenerous
      1_000_000 0
      (pos 220)
      (pos 4800)
      fresh
      fresh-unset
      plain
      (record { sys = stuck; kernel = stuck_lifted.0 })
      (record { sys = plain_end; kernel = k })
unfolding calibrate
plain_lifted =
    lift permissive permissive-IsDocumented permissive-IsGenerous _ plain 1_000_000 0 _ fresh
      fresh-unset stuck_lifted.1 plain_end-Reach

fixed_over_kernel_example :
    Bounded whole permissive permissive-IsDocumented permissive-IsGenerous 1_000_000 0
      (pos 220)
      (pos 4800)
      fresh
      fresh-unset
      inherit_lifted.1
    ⊎ ((inherit_end.starter_at ≢ MainPc.past_joins)
        × ((y : Machine permissive) × (q : GoesOn whole permissive permissive-IsDocumented
              permissive-IsGenerous 1_000_000 0
              (pos 220)
              (pos 4800)
              fresh
              fresh-unset
              (mutex_protocol 0)
              (record { sys = inherit_end; kernel = inherit_lifted.0 })
              y)
            × Bounded whole permissive permissive-IsDocumented permissive-IsGenerous 1_000_000 0
                (pos 220)
                (pos 4800)
                fresh
                fresh-unset
                (further whole permissive permissive-IsDocumented permissive-IsGenerous 1_000_000 0
                  (pos 220)
                  (pos 4800)
                  fresh
                  fresh-unset
                  inherit_lifted.1
                  q)))
fixed_over_kernel_example =
    fixed_over_kernel whole permissive permissive-IsDocumented permissive-IsGenerous 1_000_000 0
      (pos 220) (pos 4800) fresh fresh-unset usable (omega arith) inherit_lifted.1 fits

broken_over_kernel_example :
    Inverted whole permissive permissive-IsDocumented permissive-IsGenerous 1_000_000 0
      (pos 220)
      (pos 4800)
      fresh
      fresh-unset
      (further whole permissive permissive-IsDocumented permissive-IsGenerous 1_000_000 0
        (pos 220)
        (pos 4800)
        fresh
        fresh-unset
        stuck_lifted.1
        plain_lifted.1)
    ⊎ ((plain_end.starter_at ≢ MainPc.past_joins)
        × ((z : Machine permissive) × (q : GoesOn whole permissive permissive-IsDocumented
              permissive-IsGenerous 1_000_000 0
              (pos 220)
              (pos 4800)
              fresh
              fresh-unset
              plain
              (record { sys = plain_end; kernel = plain_lifted.0 })
              z)
            × Inverted whole permissive permissive-IsDocumented permissive-IsGenerous 1_000_000 0
                (pos 220)
                (pos 4800)
                fresh
                fresh-unset
                (further whole permissive permissive-IsDocumented permissive-IsGenerous 1_000_000 0
                  (pos 220)
                  (pos 4800)
                  fresh
                  fresh-unset
                  (further whole permissive permissive-IsDocumented permissive-IsGenerous 1_000_000
                    0
                    (pos 220)
                    (pos 4800)
                    fresh
                    fresh-unset
                    stuck_lifted.1
                    plain_lifted.1)
                  q)))
broken_over_kernel_example =
    broken_over_kernel whole permissive permissive-IsDocumented permissive-IsGenerous 1_000_000 0
      (pos 220) (pos 4800) fresh fresh-unset usable (omega arith) 9 100_050_000 125_151_000
      LowPc.release stuck_lifted.1 (omega arith) stuck-IsCaught plain_lifted.1

generous_run_example :
    ((after : ℕ → ℕ × ℕ) × Runs permissive permissive-IsDocumented permissive-IsGenerous 3 plain
        1_000_000 0 first.sink fresh fresh-unset
        (record { sys = plain_end; kernel = after }))
    ↔ Reach always plain 3 1_000_000 (initial 0 first.sink) plain_end
generous_run_example =
    generous_run permissive permissive-IsDocumented permissive-IsGenerous 3 plain 1_000_000 0
      first.sink fresh fresh-unset plain_end

plain_end-Starts :
    Starts whole permissive permissive-IsDocumented 1_000_000 0 0
      (pos 220)
      (pos 4800)
      fresh
      fresh-unset
      plain
      (record { sys = plain_end; kernel = plain_lifted.0 })
plain_end-Starts =
    further whole permissive permissive-IsDocumented permissive-IsGenerous 1_000_000 0 (pos 220)
      (pos 4800) fresh fresh-unset stuck_lifted.1 plain_lifted.1

kernel_refusals_example :
    Refuses
      (broken_status whole permissive permissive-IsDocumented 1_000_000 0 0
        (pos 220)
        (pos 4800)
        fresh
        fresh-unset
        plain_end-Starts)
      (measured whole permissive permissive-IsDocumented 1_000_000 0 0
        (pos 220)
        (pos 4800)
        fresh
        fresh-unset).0
      (Lacks (in_force permissive plain_lifted.0))
    × Refuses
        (fixed_status whole permissive permissive-IsDocumented 1_000_000 0 0
          (pos 220)
          (pos 4800)
          fresh
          fresh-unset
          0
          inherit_lifted.1)
        (measured whole permissive permissive-IsDocumented 1_000_000 0 0
          (pos 220)
          (pos 4800)
          fresh
          fresh-unset).0
        (Lacks (in_force permissive inherit_lifted.0))
kernel_refusals_example =
    kernel_refusals whole permissive permissive-IsDocumented 1_000_000 0 0 (pos 220) (pos 4800)
      fresh fresh-unset 0 plain_end-Starts inherit_lifted.1 plain_end_joined inherit_end_joined
