-- ===== src/Inversion/Threads/Kernel/Refinement.antt =====
-- The scheduler of case 06 that is told what was granted is what its runs over a kernel come to.
use mathlib.Core.Option.{}
use systems_postmortems.Prelude.{
  ℕ, ◌+◌, ◌≤◌, ◌≡◌, inl, inr, refl, sym, ◌∙◌, Bool, Bool-cases, true, false, arith,
}
use systems_postmortems.Inversion.Priority.{Scheduling}
use systems_postmortems.Inversion.Threads.{Thread, starter, low, medium, high, System, initial}
use systems_postmortems.Inversion.Threads.Scheduler
use systems_postmortems.Inversion.Threads.Scheduler.{Protocol, IsPicked, can_run}
use systems_postmortems.Inversion.Threads.Joins.{Reach-IsCounted, one_if}
use systems_postmortems.Inversion.Threads.Waking.{Woken-wake_up}
use systems_postmortems.Inversion.Threads.Kernel.{
  in_force, Machine, Reach, start, step, wakes, idles, IsDocumented,
}
use systems_postmortems.Inversion.Threads.Kernel.Asked.{asked, asked_same, asked-Woken}
use systems_postmortems.Inversion.Threads.Kernel.Calls.{Agrees, IsPicked-same, can_run-same}
use systems_postmortems.Inversion.Threads.Kernel.Follows.{
  clash, Fresh, Follows, Counted, execute-Follows,
}

module _ (os : Scheduling) (law : IsDocumented os) (iterations : ℕ) where
  module _ (protocol : Protocol) (cost clock sink : ℕ) (k : os.Kernel)
      (unset : (t : Thread) → in_force os k t ≡ false) where
    abbrev pub begun : Machine os
    begun = record { sys = initial clock sink; kernel = k }

    -- What a state that is reached over the kernel is, whatever is granted to those that have not
    -- asked yet.
    pub record IsRun (x : Machine os) : Type 0 where
      pub fresh : Fresh os law iterations x
      pub told :
          (g : Thread → Bool)
          → Agrees g (in_force os x.kernel) x.sys
          → Scheduler.Reach g protocol iterations cost (initial clock sink) x.sys

    IsRun-Counted : {x : Machine os} → IsRun x → Counted os law iterations x
    IsRun-Counted h = λ g same. Reach-IsCounted g iterations (h.told g same)

    step-IsRun :
        (t : Thread) (time : ℕ) (x y : Machine os)
        → time ≤ cost
        → IsPicked (in_force os x.kernel) protocol iterations x.sys t
        → IsRun x
        → Follows os law iterations t x y
        → IsRun (record y { sys = record y.sys { clock = y.sys.clock + time } })
    step-IsRun t time x y le p h f = record {
      fresh = elim [
        | starter ↦ f.fresh starter
        | low ↦ f.fresh low
        | medium ↦ f.fresh medium
        | high ↦ f.fresh high
      ];
      told = λ g same.
          let agrees : Agrees g (in_force os y.kernel) y.sys = elim [
            | starter ↦ same starter
            | low ↦ same low
            | medium ↦ same medium
            | high ↦ same high
          ] in
          let before : Agrees g (in_force os x.kernel) x.sys =
            λ v a. agrees v (f.asked_still v a) ∙ f.kept v a in
          Scheduler.step (h.told g before) t time le
            (IsPicked-same (in_force os x.kernel) g iterations protocol x.sys t
              (λ v a. sym (before v a)) p)
            (f.made g agrees);
    }

    -- A wake-up or a pause leaves the kernel as it is.
    pause-IsRun :
        (x : Machine os) (u : System)
        → ((v : Thread) → asked v x.sys ≡ true → asked v u ≡ true)
        → ((g : Thread → Bool)
            → Scheduler.Reach g protocol iterations cost (initial clock sink) x.sys
            → Scheduler.Reach g protocol iterations cost (initial clock sink) u)
        → IsRun x
        → IsRun (record x { sys = u })
    pause-IsRun x u still goes h = record {
      fresh = λ v a. elim (Bool-cases (asked v x.sys)) [
        | inl before ↦ absurd (clash a (still v before))
        | inr not_yet ↦ h.fresh v not_yet
      ];
      told = λ g same. goes g (h.told g (λ v a. same v (still v a)));
    }

    pub Reach-IsRun : {x : Machine os} → Reach os iterations protocol cost begun x → IsRun x
    Reach-IsRun start = record { fresh = λ t a. unset t; told = λ g same. Scheduler.start }
    Reach-IsRun (step {x} {y} r t time le p e) =
        let h = Reach-IsRun r in
        step-IsRun t time x y le p h
          (execute-Follows os law iterations t x y h.fresh (IsRun-Counted h) e)
    Reach-IsRun (wakes {x} {u} r t e) =
        pause-IsRun x u (asked-Woken (Woken-wake_up t x.sys u e))
          (λ g before. Scheduler.wakes before t e) (Reach-IsRun r)
    Reach-IsRun (idles {x} r time nobody) =
        pause-IsRun x _ (λ v a. asked_same v x.sys _ refl refl refl a)
          (λ g before.
            Scheduler.idles before time
              (λ t. can_run-same g (in_force os x.kernel) iterations x.sys t ∙ nobody t))
          (Reach-IsRun r)

    -- Every run over a kernel that keeps the documentation of the two pthread calls, from one in which
    -- no thread has yet what it will ask for, is a run of the scheduler that is told what was granted,
    -- namely to those threads that have in the end what they asked for; and g_rt_threads is their
    -- number.
    pub kernel_run :
        {x : Machine os}
        → Reach os iterations protocol cost begun x
        → Scheduler.Reach (in_force os x.kernel) protocol iterations cost (initial clock sink) x.sys
          × (x.sys.rt_threads
              ≡ one_if (in_force os x.kernel low)
                + one_if (in_force os x.kernel medium)
                + one_if (in_force os x.kernel high))
    kernel_run {x} r =
        let h = Reach-IsRun r in
        let told = h.told (in_force os x.kernel) (λ t a. refl) in
        (
          told,
          ground (
            arith,
            (Reach-IsCounted (in_force os x.kernel) iterations told).counted,
            h.fresh low,
            h.fresh medium,
            h.fresh high,
          ),
        )
