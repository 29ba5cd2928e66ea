-- ===== src/Inversion/Threads/Kernel/Calls.antt =====
-- What a call of `setPriority` in a thread of case 06 changes, and which answers the scheduler reads.
use mathlib.Core.Option.{}
use systems_postmortems.Prelude.{
  ℕ, ◌≡◌, ◌≢◌, inl, inr, refl, sym, ap, ◌∙◌, Bool, Bool-cases, true, false, ◌&&◌, ◌==◌, arith,
  ℕ_discrete,
}
use systems_postmortems.Inversion.Priority.{Scheduling, State, set_priority}
use systems_postmortems.Inversion.Priority.Granted.{set_priority_iff}
use systems_postmortems.Inversion.Threads.{Thread, starter, low, medium, high, System, count}
use systems_postmortems.Inversion.Threads.Scheduler.{
  Protocol, plain, inherit, priority, base, IsPicked, can_run, is_some,
}
use systems_postmortems.Inversion.Threads.Joins.{}
use systems_postmortems.Inversion.Threads.Waking.{}
use systems_postmortems.Inversion.Threads.Kernel.{
  handle, wanted, sched_fifo, enters, resume, in_force, Machine, enter, IsDocumented,
}
use systems_postmortems.Inversion.Threads.Kernel.Asked.{asked, execute_blind, execute_entered}

-- `g` and `h` say the same of the threads that have asked.
abbrev pub Agrees : (g h : Thread → Bool) → System → Type 0
Agrees g h s = (t : Thread) → asked t s ≡ true → g t ≡ h t

module _ (g h : Thread → Bool) (s : System) (same : Agrees g h s) where
  base-same : (t : Thread) → base g s t ≡ base h s t
  unfolding base
  base-same starter = refl
  base-same low = ground (arith, same low)
  base-same medium = ground (arith, same medium)
  base-same high = ground (arith, same high)

  priority-same : (p : Protocol) (t : Thread) → priority g p s t ≡ priority h p s t
  unfolding priority
  priority-same plain t = base-same t
  priority-same inherit t = ground (arith, base-same t, base-same low, base-same high)

module _ (g h : Thread → Bool) (iterations : ℕ) where
  pub can_run-same : (s : System) (t : Thread) → can_run g iterations s t ≡ can_run h iterations s t
  can_run-same s t = elim (Bool-cases (enters t s)) [
    | inl call ↦
        rw (execute_entered iterations g t s call, execute_entered iterations h t s call) refl
    | inr other ↦ ap is_some (execute_blind iterations g h t s other)
  ]

  pub IsPicked-same :
      (p : Protocol) (s : System) (t : Thread)
      → Agrees g h s
      → IsPicked g p iterations s t
      → IsPicked h p iterations s t
  IsPicked-same p s t same x = record {
    runs = sym (can_run-same s t) ∙ x.runs;
    highest = λ u r.
        rw (← priority-same g h s same p u, ← priority-same g h s same p t)
          (x.highest u (can_run-same s u ∙ r));
  }

pub handle-ne : (t u : Thread) → t ≢ u → handle t ≢ handle u
handle-ne starter starter n = absurd (n refl)
handle-ne low low n = absurd (n refl)
handle-ne medium medium n = absurd (n refl)
handle-ne high high n = absurd (n refl)
handle-ne starter u n = ground arith
handle-ne low u n = ground arith
handle-ne medium u n = ground arith
handle-ne high u n = ground arith

pub asked-resume :
    (t : Thread) (s : System)
    → enters t s ≡ true
    → (rt : ℕ) → asked t (resume t (record s { rt_threads = rt })) ≡ true
asked-resume starter s e rt = absurd (cc)
asked-resume low s e rt = refl
asked-resume medium s e rt = refl
asked-resume high s e rt = refl

module _ (os : Scheduling) (law : IsDocumented os) where
  open os use {Kernel, set_param, get_param}

  pub enter-kernel :
      (t : Thread) (x : Machine os)
      → (enter os t x).kernel ≡ (set_param (handle t) sched_fifo (wanted t) x.kernel).1
  unfolding enter
  enter-kernel t x = ground arith

  -- A call of `setPriority` for one thread leaves what is in force for another.
  pub enter-others :
      (t u : Thread) (x : Machine os)
      → t ≢ u
      → in_force os (enter os t x).kernel u ≡ in_force os x.kernel u
  enter-others t u x n =
      ap (λ k. in_force os k u) (enter-kernel t x)
      ∙ ap (λ a. (a.0 == 0) && (a.1 == sched_fifo) && (a.2 == wanted u))
          (law.others (handle t) sched_fifo (wanted t) (handle u) x.kernel (handle-ne t u n))

  call : Thread → Machine os → Bool × State os
  call t x =
      set_priority os (handle t) sched_fifo (wanted t)
        (record { kernel = x.kernel; rt_threads = x.sys.rt_threads })

  -- If a thread had not what it asks for, the call answers whether it has it after.
  call-in_force :
      (t : Thread) (x : Machine os)
      → in_force os x.kernel t ≡ false
      → (call t x).0 ≡ in_force os (enter os t x).kernel t
  unfolding call enter
  call-in_force t x fresh =
      elim (ℕ_discrete (set_param (handle t) sched_fifo (wanted t) x.kernel).0 0) [
        | yes done ↦ ground arith
        | no failed ↦
            ground
              (arith, fresh, law.fails (handle t) sched_fifo (wanted t) (handle t) x.kernel failed)
      ]

  pub enter-mine :
      (t : Thread) (x : Machine os)
      → in_force os x.kernel t ≡ false
      → (enter os t x).sys
        ≡ resume t (record x.sys {
          rt_threads = count (in_force os (enter os t x).kernel t) x.sys.rt_threads;
        })
  unfolding call enter
  enter-mine t x fresh =
      let counts : (call t x).1.rt_threads ≡ count (call t x).0 x.sys.rt_threads =
        (set_priority_iff os (handle t) sched_fifo (wanted t)
          (record { kernel = x.kernel; rt_threads = x.sys.rt_threads })).2 in
      ap (λ n. resume t (record x.sys { rt_threads = n }))
        (counts ∙ ap (λ b. count b x.sys.rt_threads) (call-in_force t x fresh))
