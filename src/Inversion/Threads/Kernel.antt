-- ===== src/Inversion/Threads/Kernel.antt =====
-- The threads of case 06 over the kernel of `setPriority`: a thread's first step is its call, and it
-- runs with the priority that the kernel has in force for it.
pub mod Asked
pub mod Calls
pub mod Follows
pub mod Refinement
pub mod First
pub mod Granting
pub mod Generous
pub mod Answers
pub mod Returned
pub mod Errors
mod Tests
use mathlib.Core.Option
use systems_postmortems.Prelude.{
  ℕ, ◌+◌, ◌≤◌, ◌≡◌, ◌≢◌, Bool, true, false, ◌&&◌, Option, none, some, ◌==◌, if◌then◌else◌,
}
use systems_postmortems.Inversion.Priority.{Scheduling, State, set_priority}
use systems_postmortems.Inversion.Threads
use systems_postmortems.Inversion.Threads.{
  Thread, starter, low, medium, high, LowPc, HogPc, ControlPc, System, wake_up,
}
use systems_postmortems.Inversion.Threads.Scheduler.{Protocol, IsPicked, can_run}

-- pthread_self, as a number.
abbrev pub handle : Thread → ℕ
handle low = 0
handle medium = 1
handle high = 2
handle starter = 3

-- SCHED_FIFO, and the priorities that the threads ask for; `main` asks for none.
abbrev pub sched_fifo : ℕ
sched_fifo = 1

abbrev pub wanted : Thread → ℕ
wanted low = 10
wanted medium = 50
wanted high = 90
wanted starter = 0

abbrev pub low_enters : LowPc → Bool
low_enters LowPc.entry = true
low_enters _ = false

abbrev pub medium_enters : HogPc → Bool
medium_enters HogPc.entry = true
medium_enters _ = false

abbrev pub high_enters : ControlPc → Bool
high_enters ControlPc.entry = true
high_enters _ = false

-- Whether the next step of a thread is its call of `setPriority`.
abbrev pub enters : Thread → System → Bool
enters starter s = false
enters low s = low_enters s.low_at
enters medium s = medium_enters s.medium_at
enters high s = high_enters s.high_at

-- Where a thread goes on after the call, whose result it does not use.
abbrev pub resume : Thread → System → System
resume starter s = s
resume low s = record s { low_at = LowPc.test }
resume medium s = record s { medium_at = HogPc.test }
resume high s = record s { high_at = ControlPc.test 0 }

abbrev pub refused : Thread → Bool
refused t = false

module _ (os : Scheduling) where
  open os use {Kernel, set_param, get_param}

  -- Whether a thread has SCHED_FIFO with the priority that it asks for.
  abbrev pub in_force : Kernel → Thread → Bool
  in_force k t =
      let (got, policy, priority) = get_param (handle t) k in
      (got == 0) && (policy == sched_fifo) && (priority == wanted t)

  pub record Machine : Type 0 where
    pub sys : System
    pub kernel : Kernel

  -- The call of `setPriority` that a thread begins with.
  unfoldable pub enter : Thread → Machine → Machine
  unfolding set_priority
  enter t x =
      let (granted, after) =
        set_priority os (handle t) sched_fifo (wanted t)
          (record { kernel = x.kernel; rt_threads = x.sys.rt_threads }) in
      record {
        sys = resume t (record x.sys { rt_threads = after.rt_threads });
        kernel = after.kernel;
      }

  module _ (iterations : ℕ) where
    -- The other steps have nothing to do with what was granted.
    unfoldable pub execute : Thread → Machine → Option Machine
    execute t x =
        if enters t x.sys
        then some (enter t x)
        else Option.map (λ u. record x { sys = u }) (Threads.execute refused iterations t x.sys)

    -- As `Scheduler.Reach`, with the priorities that are in force.
    module _ (protocol : Protocol) (cost : ℕ) (from : Machine) where
      pub data Reach : Machine → Type 0 where
        start : Reach from
        step :
            {x y : Machine}
            → Reach x
            → (t : Thread) (time : ℕ) → time ≤ cost
            → IsPicked (in_force x.kernel) protocol iterations x.sys t
            → execute t x ≡ some y
            → Reach (record y { sys = record y.sys { clock = y.sys.clock + time } })
        wakes :
            {x : Machine} {u : System}
            → Reach x
            → (t : Thread) → wake_up t x.sys ≡ some u
            → Reach (record x { sys = u })
        idles :
            {x : Machine}
            → Reach x
            → (time : ℕ) → ((t : Thread) → can_run (in_force x.kernel) iterations x.sys t ≡ false)
            → Reach (record x { sys = record x.sys { clock = x.sys.clock + time } })

  -- What the two pthread calls document: a call that fails changes nothing, and one for a thread
  -- changes nothing for another.
  pub record IsDocumented : Type 0 where
    pub fails :
        (t policy priority u : ℕ) (k : Kernel)
        → (set_param t policy priority k).0 ≢ 0
        → get_param u (set_param t policy priority k).1 ≡ get_param u k
    pub others :
        (t policy priority u : ℕ) (k : Kernel)
        → t ≢ u
        → get_param u (set_param t policy priority k).1 ≡ get_param u k
