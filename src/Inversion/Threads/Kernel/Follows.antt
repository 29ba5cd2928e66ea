-- ===== src/Inversion/Threads/Kernel/Follows.antt =====
-- What a step of case 06's threads over a kernel is to the scheduler that is told what was granted.
use mathlib.Core.Option.{some-injective}
use systems_postmortems.Prelude.{
  ℕ, ◌≡◌, inl, inr, refl, sym, ap, ◌∙◌, Bool, Bool-cases, true, false, some, subst, arith,
  Option-cases,
}
use systems_postmortems.Inversion.Priority.{Scheduling}
use systems_postmortems.Inversion.Threads
use systems_postmortems.Inversion.Threads.{
  Thread, starter, low, medium, high, System, count, initial, wake_up,
}
use systems_postmortems.Inversion.Threads.Scheduler.{}
use systems_postmortems.Inversion.Threads.Joins.{IsCounted}
use systems_postmortems.Inversion.Threads.Waking.{}
use systems_postmortems.Inversion.Threads.Kernel.{
  enters, resume, refused, in_force, Machine, enter, execute, IsDocumented,
}
use systems_postmortems.Inversion.Threads.Kernel.Asked.{
  asked, execute_blind, execute_entered, asked-execute, enters-asked,
}
use systems_postmortems.Inversion.Threads.Kernel.Calls.{
  Agrees, asked-resume, enter-others, enter-mine,
}

pub clash : {b : Bool} → b ≡ false → ¬ (b ≡ true)
clash f t = cc

module _ (os : Scheduling) (law : IsDocumented os) (iterations : ℕ) where
  -- A thread that has not asked has not what it asks for.
  abbrev pub Fresh : Machine os → Type 0
  Fresh x = (t : Thread) → asked t x.sys ≡ false → in_force os x.kernel t ≡ false

  -- What a step of thread `t` over the kernel is to the threads that are told what was granted.
  pub record Follows (t : Thread) (x y : Machine os) : Type 0 where
    pub kept : (v : Thread) → asked v x.sys ≡ true → in_force os y.kernel v ≡ in_force os x.kernel v
    pub asked_still : (v : Thread) → asked v x.sys ≡ true → asked v y.sys ≡ true
    pub fresh : Fresh y
    pub made :
        (g : Thread → Bool)
        → Agrees g (in_force os y.kernel) y.sys
        → Threads.execute g iterations t x.sys ≡ some y.sys

  enter-kept :
      (t : Thread) (x : Machine os)
      → enters t x.sys ≡ true
      → (v : Thread) → asked v x.sys ≡ true
      → in_force os (enter os t x).kernel v ≡ in_force os x.kernel v
  enter-kept t x call v a =
      enter-others os law t v x
        (λ same. clash (enters-asked t x.sys call) (subst (λ u. asked u x.sys ≡ true) (sym same) a))

  -- Which step `setPriority` is.
  entered :
      (t : Thread) (x : Machine os) (g : Thread → Bool)
      → enters t x.sys ≡ true
      → Fresh x
      → g t ≡ in_force os (enter os t x).kernel t
      → Threads.execute g iterations t x.sys ≡ some (enter os t x).sys
  entered t x g call fresh same =
      execute_entered iterations g t x.sys call
      ∙ ap (λ b. some (resume t (record x.sys { rt_threads = count b x.sys.rt_threads }))) same
      ∙ ap some (sym (enter-mine os law t x (fresh t (enters-asked t x.sys call))))

  entered-asked :
      (t : Thread) (x : Machine os)
      → enters t x.sys ≡ true
      → Fresh x
      → asked t (enter os t x).sys ≡ true
  entered-asked t x call fresh =
      subst (λ s. asked t s ≡ true)
        (sym (enter-mine os law t x (fresh t (enters-asked t x.sys call))))
        (asked-resume t x.sys call _)

  -- `g_rt_threads` and the states of `main` are as `Joins` says, whatever is granted to those that
  -- have not asked.
  abbrev pub Counted : Machine os → Type 0
  Counted x = (g : Thread → Bool) → Agrees g (in_force os x.kernel) x.sys → IsCounted g x.sys

  enter-Follows :
      (t : Thread) (x : Machine os)
      → Fresh x
      → Counted x
      → enters t x.sys ≡ true
      → Follows t x (enter os t x)
  enter-Follows t x fresh counted call = record {
    kept = kept;
    asked_still = still;
    fresh = λ v a.
        enter-others os law t v x (λ same. clash a (subst (λ u. asked u y.sys ≡ true) same mine))
        ∙ elim (Bool-cases (asked v x.sys)) [
          | inl before ↦ absurd (clash a (still v before))
          | inr not_yet ↦ fresh v not_yet
        ];
    made = λ g same. entered t x g call fresh (same t mine);
  }
    where
      y : Machine os
      y = enter os t x

      mine : asked t y.sys ≡ true
      mine = entered-asked t x call fresh

      kept : (v : Thread) → asked v x.sys ≡ true → in_force os y.kernel v ≡ in_force os x.kernel v
      kept = enter-kept t x call

      still : (v : Thread) → asked v x.sys ≡ true → asked v y.sys ≡ true
      still =
          asked-execute iterations (in_force os y.kernel) t x.sys y.sys
            (counted (in_force os y.kernel) kept)
            (entered t x (in_force os y.kernel) call fresh refl)

  other-Follows :
      (t : Thread) (x : Machine os) (u : System)
      → Fresh x
      → Counted x
      → enters t x.sys ≡ false
      → Threads.execute refused iterations t x.sys ≡ some u
      → Follows t x (record x { sys = u })
  other-Follows t x u fresh counted other e = record {
    kept = λ v a. refl;
    asked_still = still;
    fresh = λ v a. elim (Bool-cases (asked v x.sys)) [
      | inl before ↦ absurd (clash a (still v before))
      | inr not_yet ↦ fresh v not_yet
    ];
    made = λ g same. execute_blind iterations g refused t x.sys other ∙ e;
  }
    where
      g : Thread → Bool
      g = in_force os x.kernel

      still : (v : Thread) → asked v x.sys ≡ true → asked v u ≡ true
      still =
          asked-execute iterations g t x.sys u (counted g (λ v a. refl))
            (execute_blind iterations g refused t x.sys other ∙ e)

  pub execute-Follows :
      (t : Thread) (x y : Machine os)
      → Fresh x
      → Counted x
      → execute os iterations t x ≡ some y
      → Follows t x y
  unfolding execute
  execute-Follows t x y fresh counted e = elim (Bool-cases (enters t x.sys)) [
    | inl call ↦
        subst (Follows t x) (some-injective _ _ (ground (arith, call, e)))
          (enter-Follows t x fresh counted call)
    | inr other ↦ elim (Option-cases (Threads.execute refused iterations t x.sys)) [
      | inl stuck ↦ absurd (ground (arith, other, stuck, e))
      | inr (u, made) ↦
          subst (Follows t x) (some-injective _ _ (ground (arith, other, made, e)))
            (other-Follows t x u fresh counted other made)
    ]
  ]
