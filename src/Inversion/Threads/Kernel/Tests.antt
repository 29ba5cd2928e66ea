-- ===== src/Inversion/Threads/Kernel/Tests.antt =====
-- A run of case 06's threads over a kernel that grants priorities up to 60.
use systems_postmortems.Prelude.{ℕ, ◌+◌, ◌≡◌, refl, leb, if◌then◌else◌, arith}
use systems_postmortems.Threads.Table.{store}
use systems_postmortems.Inversion.Priority.{Scheduling, set_priority}
use systems_postmortems.Inversion.Threads
use systems_postmortems.Inversion.Threads.{
  Thread, starter, low, medium, high, LowPc, HogPc, MainPc, System, initial,
}
use systems_postmortems.Inversion.Threads.Scheduler
use systems_postmortems.Inversion.Threads.Scheduler.{plain, priority, IsPicked}
use systems_postmortems.Inversion.Threads.Joins.{one_if}
use systems_postmortems.Inversion.Threads.Kernel.{
  in_force, Machine, enter, execute, Reach, start, step, IsDocumented,
}
use systems_postmortems.Inversion.Threads.Kernel.Refinement.{kernel_run}

-- The policy and the priority of every thread.
abbrev limited : Scheduling
limited = record {
  Kernel = ℕ → ℕ × ℕ;
  set_param = λ t policy p k. if leb p 60 then (0, store k t (policy, p)) else (1, k);
  get_param = λ t k. (0, (k t).0, (k t).1);
}

limited-IsDocumented : IsDocumented limited
limited-IsDocumented = record {
  fails = λ t policy p u k bad. ground arith;
  others = λ t policy p u k ne. ground arith;
}

abbrev unset : ℕ → ℕ × ℕ
unset t = (0, 0)

-- `main` starts the lowest thread, and that one makes its call.
abbrev called : ℕ → Machine limited
called sink = record {
  sys = record (initial 0 sink) {
    clock = 2000;
    rt_threads = 1;
    starter_at = MainPc.create_medium;
    low_at = LowPc.test;
  };
  kernel = store unset 0 (1, 10);
}

called-Reach :
    (sink : ℕ)
    → Reach limited 3 plain 1000 (record { sys = initial 0 sink; kernel = unset }) (called sink)
unfolding execute Threads.execute enter priority set_priority
called-Reach sink =
    step
      (step start starter 1000 (omega arith)
        (record {
          runs = refl;
          highest = elim [
            | starter ↦ λ r. omega arith
            | low ↦ λ r. omega arith
            | medium ↦ λ r. omega arith
            | high ↦ λ r. omega arith
          ];
        })
        refl)
      low 1000 (omega arith)
      (record {
        runs = refl;
        highest = elim [
          | starter ↦ λ r. omega arith
          | low ↦ λ r. omega arith
          | medium ↦ λ r. omega arith
          | high ↦ λ r. omega arith
        ];
      })
      refl

kernel_run_example :
    Scheduler.Reach
      (in_force limited (store unset 0 (1, 10)))
      plain
      3
      1000
      (initial 0 1)
      (called 1).sys
    × (1
        ≡ one_if (in_force limited (store unset 0 (1, 10)) low)
          + one_if (in_force limited (store unset 0 (1, 10)) medium)
          + one_if (in_force limited (store unset 0 (1, 10)) high))
kernel_run_example =
    kernel_run limited limited-IsDocumented 3 plain 1000 0 1 unset
      (elim [ starter ↦ refl | low ↦ refl | medium ↦ refl | high ↦ refl ]) (called-Reach 1)
