-- ===== src/Inversion/Threads/Kernel/Granting.antt =====
-- The steps of case 06's threads over a kernel that grants what they ask for.
use mathlib.Core.Option.{some-injective}
use systems_postmortems.Prelude.{
  ℕ, ◌≡◌, ◌≢◌, inl, inr, refl, sym, ap, ◌∙◌, Bool, Bool-cases, true, false, some, ◌&&◌, ◌==◌, subst,
  arith, Option-cases, ◌⊎◌,
}
use systems_postmortems.Inversion.Priority.{Scheduling}
use systems_postmortems.Inversion.Threads
use systems_postmortems.Inversion.Threads.{
  Thread, starter, low, medium, high, System, count, initial, wake_up,
}
use systems_postmortems.Inversion.Threads.Scheduler.{}
use systems_postmortems.Inversion.Threads.Waking.{}
use systems_postmortems.Inversion.Threads.Kernel.{
  handle, sched_fifo, wanted, enters, resume, refused, in_force, Machine, enter, execute,
  IsDocumented,
}
use systems_postmortems.Inversion.Threads.Kernel.Asked.{
  asked, execute_blind, execute_entered, enters-asked,
}
use systems_postmortems.Inversion.Threads.Kernel.Calls.{
  Agrees, enter-kernel, enter-others, enter-mine,
}
use systems_postmortems.Inversion.Threads.Kernel.First.{asked_first, resume-asked}

-- The kernel grants the three threads what they ask for, and answers that they have it. `main` asks for
-- nothing.
pub record IsGenerous (os : Scheduling) : Type 0 where
  pub gives :
      (t : Thread) (k : os.Kernel)
      → t ≢ starter
      → os.get_param (handle t) (os.set_param (handle t) sched_fifo (wanted t) k).1
        ≡ (0, sched_fifo, wanted t)

abbrev pub granted : Thread → Bool
granted t = true

same_thread : (t v : Thread) → (t ≡ v) ⊎ (t ≢ v)
same_thread starter starter = inl refl
same_thread low low = inl refl
same_thread medium medium = inl refl
same_thread high high = inl refl
same_thread starter v = inr (λ q. ground (arith, q))
same_thread low v = inr (λ q. ground (arith, q))
same_thread medium v = inr (λ q. ground (arith, q))
same_thread high v = inr (λ q. ground (arith, q))

enters-other : (t : Thread) (s : System) → enters t s ≡ true → t ≢ starter
enters-other t s call q = ground (arith, call, q)

asked-other : (t : Thread) (s : System) → asked t s ≡ true → t ≢ starter
asked-other t s a q = ground (arith, a, q)

module _ (os : Scheduling) (law : IsDocumented os) (grants : IsGenerous os) (iterations : ℕ) where
  -- A thread that has asked has what it asked for.
  abbrev pub Served : Machine os → Type 0
  Served x = Agrees granted (in_force os x.kernel) x.sys

  gives-in_force :
      (t : Thread) (x : Machine os) → t ≢ starter → in_force os (enter os t x).kernel t ≡ true
  gives-in_force t x other =
      ap (λ k. in_force os k t) (enter-kernel os law t x)
      ∙ ap (λ a. (a.0 == 0) && (a.1 == sched_fifo) && (a.2 == wanted t))
          (grants.gives t x.kernel other)
      ∙ elim t as (λ v. ((0 == 0) && (sched_fifo == sched_fifo) && (wanted v == wanted v)) ≡ true) [
        | starter ↦ refl
        | low ↦ refl
        | medium ↦ refl
        | high ↦ refl
      ]

  -- The call of a thread is the step of one that is granted what it asks for.
  enter-granted :
      (t : Thread) (x : Machine os)
      → enters t x.sys ≡ true
      → in_force os x.kernel t ≡ false
      → Threads.execute granted iterations t x.sys ≡ some (enter os t x).sys
  enter-granted t x call fresh =
      execute_entered iterations granted t x.sys call
      ∙ ap (λ b. some (resume t (record x.sys { rt_threads = count b x.sys.rt_threads })))
          (sym (gives-in_force t x (enters-other t x.sys call)))
      ∙ ap some (sym (enter-mine os law t x fresh))

  enter-Served :
      (t : Thread) (x : Machine os)
      → in_force os x.kernel t ≡ false
      → Served x
      → Served (enter os t x)
  enter-Served t x fresh served v a = elim (same_thread t v) [
    | inl same ↦ sym (
        subst (λ w. in_force os (enter os t x).kernel w ≡ true) same
          (gives-in_force t x
            (asked-other t _ (subst (λ w. asked w (enter os t x).sys ≡ true) (sym same) a))))
    | inr other ↦
        served v (
          resume-asked t v x.sys _ other
            (subst (λ s. asked v s ≡ true) (enter-mine os law t x fresh) a))
        ∙ sym (enter-others os law t v x other)
  ]

  -- A step over the kernel is one of the threads to which everything is granted, and the other way
  -- round.
  pub record IsStep (t : Thread) (x y : Machine os) : Type 0 where
    pub made : execute os iterations t x ≡ some y
    pub told : Threads.execute granted iterations t x.sys ≡ some y.sys
    pub served : Served y

  enter-IsStep :
      (t : Thread) (x : Machine os)
      → enters t x.sys ≡ true
      → in_force os x.kernel t ≡ false
      → Served x
      → IsStep t x (enter os t x)
  unfolding execute
  enter-IsStep t x call fresh served = record {
    made = ground (arith, call);
    told = enter-granted t x call fresh;
    served = enter-Served t x fresh served;
  }

  other-IsStep :
      (t : Thread) (x : Machine os) (u : System)
      → enters t x.sys ≡ false
      → Threads.execute refused iterations t x.sys ≡ some u
      → Served x
      → IsStep t x (record x { sys = u })
  unfolding execute
  other-IsStep t x u other e served = record {
    made = ground (arith, other, e);
    told = execute_blind iterations granted refused t x.sys other ∙ e;
    served = λ v a. served v (asked_first iterations t x.sys u other e v a);
  }

  pub execute-IsStep :
      (t : Thread) (x y : Machine os)
      → (asked t x.sys ≡ false → in_force os x.kernel t ≡ false)
      → Served x
      → execute os iterations t x ≡ some y
      → IsStep t x y
  unfolding execute
  execute-IsStep t x y fresh served e = elim (Bool-cases (enters t x.sys)) [
    | inl call ↦
        subst (IsStep t x) (some-injective _ _ (ground (arith, call, e)))
          (enter-IsStep t x call (fresh (enters-asked t x.sys call)) served)
    | inr other ↦ elim (Option-cases (Threads.execute refused iterations t x.sys)) [
      | inl stuck ↦ absurd (ground (arith, other, stuck, e))
      | inr (u, made) ↦
          subst (IsStep t x) (some-injective _ _ (ground (arith, other, made, e)))
            (other-IsStep t x u other made served)
    ]
  ]

  pub lift-IsStep :
      (t : Thread) (x : Machine os) (u : System)
      → (asked t x.sys ≡ false → in_force os x.kernel t ≡ false)
      → Served x
      → Threads.execute granted iterations t x.sys ≡ some u
      → (k : os.Kernel) × IsStep t x (record { sys = u; kernel = k })
  lift-IsStep t x u fresh served e = elim (Bool-cases (enters t x.sys)) [
    | inl call ↦
        let f = fresh (enters-asked t x.sys call) in
        (
          (enter os t x).kernel,
          subst (λ v. IsStep t x (record { sys = v; kernel = (enter os t x).kernel }))
              (some-injective _ _ (sym (enter-granted t x call f) ∙ e))
              (enter-IsStep t x call f served),
        )
    | inr other ↦ (
      x.kernel,
      other-IsStep t x u other (sym (execute_blind iterations granted refused t x.sys other) ∙ e)
          served,
    )
  ]
