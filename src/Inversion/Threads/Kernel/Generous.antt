-- ===== src/Inversion/Threads/Kernel/Generous.antt =====
-- The runs of case 06's threads over a kernel that grants what they ask for.
use mathlib.Core.Option.{}
use systems_postmortems.Prelude.{ℕ, ◌≡◌, refl, sym, ◌∙◌, false, ◌↔◌}
use systems_postmortems.Inversion.Priority.{Scheduling}
use systems_postmortems.Inversion.Threads.{Thread, starter, low, medium, high, System, initial}
use systems_postmortems.Inversion.Threads.Scheduler
use systems_postmortems.Inversion.Threads.Scheduler.{Protocol, IsPicked, can_run}
use systems_postmortems.Inversion.Threads.Waking.{Woken-wake_up}
use systems_postmortems.Inversion.Threads.Kernel.{
  in_force, Machine, Reach, start, step, wakes, idles, IsDocumented,
}
use systems_postmortems.Inversion.Threads.Kernel.Asked.{asked, asked_same}
use systems_postmortems.Inversion.Threads.Kernel.Calls.{IsPicked-same, can_run-same}
use systems_postmortems.Inversion.Threads.Kernel.First.{Woken-asked}
use systems_postmortems.Inversion.Threads.Kernel.Refinement.{Reach-IsRun, begun}
use systems_postmortems.Inversion.Threads.Kernel.Granting.{
  IsGenerous, granted, Served, execute-IsStep, lift-IsStep,
}

module _ (os : Scheduling) (law : IsDocumented os) (grants : IsGenerous os) (iterations : ℕ) where
  pub Reach-trans :
      {protocol : Protocol} {cost : ℕ} {x y z : Machine os}
      → Reach os iterations protocol cost x y
      → Reach os iterations protocol cost y z
      → Reach os iterations protocol cost x z
  Reach-trans a start = a
  Reach-trans a (step r t time le p e) = step (Reach-trans a r) t time le p e
  Reach-trans a (wakes r t e) = wakes (Reach-trans a r) t e
  Reach-trans a (idles r time nobody) = idles (Reach-trans a r) time nobody

  module _ (protocol : Protocol) (cost clock sink : ℕ) (k : os.Kernel)
      (unset : (t : Thread) → in_force os k t ≡ false) where
    abbrev pub Runs : Machine os → Type 0
    Runs =
        Reach os iterations protocol cost (begun os law iterations protocol cost clock sink k unset)

    Reach-fresh :
        {x : Machine os}
        → Runs x
        → (t : Thread) → asked t x.sys ≡ false
        → in_force os x.kernel t ≡ false
    Reach-fresh r = (Reach-IsRun os law iterations protocol cost clock sink k unset r).fresh

    Reach-Served : {x : Machine os} → Runs x → Served os law grants iterations x
    Reach-Served start = elim [
      | starter ↦ λ a. absurd (cc)
      | low ↦ λ a. absurd (cc)
      | medium ↦ λ a. absurd (cc)
      | high ↦ λ a. absurd (cc)
    ]
    Reach-Served (step {x} {y} r t time le p e) =
        let h =
          execute-IsStep os law grants iterations t x y (Reach-fresh r t) (Reach-Served r) e in
        λ v a. h.served v (asked_same v _ y.sys refl refl refl a)
    Reach-Served (wakes {x} {u} r t e) =
        λ v a. Reach-Served r v (Woken-asked (Woken-wake_up t x.sys u e) v a)
    Reach-Served (idles {x} r time nobody) =
        λ v a. Reach-Served r v (asked_same v _ x.sys refl refl refl a)

    pub told :
        {x y : Machine os}
        → Runs x
        → Reach os iterations protocol cost x y
        → Scheduler.Reach granted protocol iterations cost x.sys y.sys
    told r start = Scheduler.start
    told r (step {x} {y} l t time le p e) =
        let whole : Runs x = Reach-trans r l in
        Scheduler.step (told r l) t time le
          (IsPicked-same (in_force os x.kernel) granted iterations protocol x.sys t
            (λ v a. sym (Reach-Served whole v a)) p)
          (execute-IsStep os law grants iterations t x y (Reach-fresh whole t) (Reach-Served whole)
            e).told
    told r (wakes l t e) = Scheduler.wakes (told r l) t e
    told r (idles {x} l time nobody) =
        Scheduler.idles (told r l) time
          (λ t. can_run-same granted (in_force os x.kernel) iterations x.sys t ∙ nobody t)

    -- A run of the threads to which everything is granted goes on over the kernel.
    pub lift :
        {x : Machine os} {u : System}
        → Runs x
        → Scheduler.Reach granted protocol iterations cost x.sys u
        → (after : os.Kernel) × Reach os iterations protocol cost x
            (record { sys = u; kernel = after })
    lift {x} r Scheduler.start = (x.kernel, start)
    lift {x} r (Scheduler.step {s} {u} q t time le p e) =
        let (before, l) = lift r q in
        let here : Machine os = record { sys = s; kernel = before } in
        let whole : Runs here = Reach-trans r l in
        let (after, h) =
          lift-IsStep os law grants iterations t here u (Reach-fresh whole t) (Reach-Served whole)
            e in
        (
          after,
          step l t time le
              (IsPicked-same granted (in_force os before) iterations protocol s t
                (Reach-Served whole) p)
              h.made,
        )
    lift r (Scheduler.wakes q t e) = let (before, l) = lift r q in (before, wakes l t e)
    lift {x} r (Scheduler.idles {s} q time nobody) =
        let (before, l) = lift r q in
        (
          before,
          idles l time (λ t. can_run-same (in_force os before) granted iterations s t ∙ nobody t),
        )

    -- Over a kernel that keeps the documentation of the two pthread calls and grants the three
    -- threads what they ask for, from a state in which no thread has yet what it will ask for, the states that the
    -- threads come to are those of the scheduler in which every request is granted.
    pub generous_run :
        (s : System)
        → ((after : os.Kernel) × Runs (record { sys = s; kernel = after }))
          ↔ Scheduler.Reach granted protocol iterations cost (initial clock sink) s
    generous_run s = (λ r. told start r.1, λ q. lift start q)
