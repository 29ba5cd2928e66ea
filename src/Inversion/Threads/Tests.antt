-- ===== src/Inversion/Threads/Tests.antt =====
-- Whole runs of the threads of case 06, and its theorems at their states.
use systems_postmortems.Prelude.{◌≤◌, ℕ, ◌+◌, ◌*◌, ◌≡◌, refl, false, arith}
use systems_postmortems.Prelude.Int.{pos_part}
use systems_postmortems.Inversion.Threads.{
  Thread, starter, low, medium, high, MainPc, System, execute, wake_up, initial,
}
use systems_postmortems.Inversion.Threads.Scheduler.{
  Protocol, plain, inherit, priority, can_run, Reach, start,
}
use systems_postmortems.Inversion.Threads.Simulation.{always, takes, cheap, rounds, rounds-Reach}
use systems_postmortems.Inversion.Threads.Inheritance.{worst_bounded}
use systems_postmortems.Inversion.Threads.PriorityLock
use systems_postmortems.Inversion.Threads.PriorityLock.{same_steps}
use systems_postmortems.Inversion.Threads.Finish.{can_finish}
use systems_postmortems.Inversion.Threads.Bursts.{plain-bounded}
use systems_postmortems.Inversion.Threads.Outcome.{Reach-trans}

-- A critical section of 3 rounds, and a processor that stands still for 500 us at a time.
abbrev simulate : Protocol → ℕ → System → System
simulate p n s = rounds always p 3 takes 500_000 n s

simulate-Reach : (p : Protocol) (n : ℕ) (s : System) → Reach always p 3 1_000_000 s (simulate p n s)
simulate-Reach p n s = rounds-Reach always p 3 takes 500_000 1_000_000 cheap n s start

-- The thread of the lowest priority is about to unlock, and the middle one is in a burst.
stuck : System
stuck = simulate plain 160 (initial 0 0)

stuck-Reach : Reach always plain 3 1_000_000 (initial 0 0) stuck
unfolding stuck
stuck-Reach = simulate-Reach plain 160 (initial 0 0)

-- All of it, from there.
plain_end : System
plain_end = simulate plain 4840 stuck

plain_end-Reach : Reach always plain 3 1_000_000 stuck plain_end
unfolding plain_end
plain_end-Reach = simulate-Reach plain 4840 stuck

can_finish_example :
    (u : System) × Reach always plain 3 1_000_000 stuck u × (u.starter_at ≡ MainPc.past_joins)
can_finish_example = can_finish always plain 3 (omega arith) stuck stuck-Reach

plain-bounded_example :
    2_000_000 * (1000 * pos_part plain_end.worst)
    ≤ 2_000_000 * ((3 + 4) * 1_000_000 + 14_000_000) + 14_000_000 * ((3 + 2) * 1_000_000)
plain-bounded_example =
    plain-bounded 1_000_000 always 3 (λ t. refl) (Reach-trans stuck-Reach plain_end-Reach)

-- The same with inheritance.
inherit_end : System
inherit_end = simulate inherit 4200 (initial 0 0)

inherit_end-Reach : Reach always inherit 3 1_000_000 (initial 0 0) inherit_end
unfolding inherit_end
inherit_end-Reach = simulate-Reach inherit 4200 (initial 0 0)

worst_bounded_example : 1000 * pos_part inherit_end.worst ≤ (3 + 4) * 1_000_000
worst_bounded_example = worst_bounded always 3 (λ t. refl) 1_000_000 inherit_end-Reach

-- `main`, the lowest and the middle thread sleep.
quiet : System
quiet = simulate plain 24 (initial 0 0)

quiet-Reach : Reach always plain 3 1_000_000 (initial 0 0) quiet
unfolding quiet
quiet-Reach = simulate-Reach plain 24 (initial 0 0)

quiet_nobody : (t : Thread) → can_run always 3 quiet t ≡ false
unfolding quiet rounds execute wake_up priority
quiet_nobody starter = refl
quiet_nobody low = refl
quiet_nobody medium = refl
quiet_nobody high = refl

same_steps_example : PriorityLock.execute always 3 low stuck ≡ execute always 3 low stuck
same_steps_example = same_steps always 3 low stuck
