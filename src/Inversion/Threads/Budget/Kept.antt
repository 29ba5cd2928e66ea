-- ===== src/Inversion/Threads/Budget/Kept.antt =====
-- The budget of a wait is kept by every run, under a protocol that keeps it while the lowest thread is
-- in its critical section.
use systems_postmortems.Prelude.{
  ℕ, ◌+◌, ◌*◌, ◌≤◌, ◌≡◌, inl, inr, refl, Bool, true, false, Bool-cases, some, arith, subst,
}
use systems_postmortems.Prelude.Int.{pos_part}
use systems_postmortems.Inversion.Threads.{
  Thread, low, high, LowPc, HogPc, ControlPc, System, execute, initial,
}
use systems_postmortems.Inversion.Threads.Scheduler.{
  Protocol, can_run, IsPicked, Reach, start, step, wakes, idles,
}
use systems_postmortems.Inversion.Threads.Waking.{
  Woken, Woken-wake_up, starter_woken, low_woken, medium_woken, high_woken,
}
use systems_postmortems.Inversion.Threads.Exclusion.{low_inside, IsExclusive, Reach-IsExclusive}
use systems_postmortems.Inversion.Threads.Budget.{IsReserve, allowance, IsDue, IsTimely, later_by}
use systems_postmortems.Inversion.Threads.Budget.Steps.{high-IsTimely, quiet-IsTimely}
use systems_postmortems.Inversion.Threads.Picking.{
  inside-can_run, free-can_run, measure-can_run, picked-free, picked-measure,
}

clash : {b : Bool} → b ≡ false → ¬ (b ≡ true)
clash f t = cc

module _ (granted : Thread → Bool) (iterations : ℕ) (all : (t : Thread) → granted t ≡ true)
    (cost rate burst most : ℕ) {reserve : HogPc → ℕ → ℕ}
    (law : IsReserve cost burst most reserve) where
  abbrev pub Timely : System → Type 0
  Timely = IsTimely iterations cost rate burst most reserve

  abbrev Due : ControlPc → HogPc → LowPc → ℕ → Type 0
  Due = IsDue iterations cost rate burst most reserve

  -- Every step made while the control loop waits for the lowest thread keeps the budget.
  abbrev pub Holds : Protocol → Type 0
  Holds protocol =
      (t : Thread) (s u : System) (i asked time : ℕ)
      → s.high_at ≡ ControlPc.acquire i asked
      → low_inside s.low_at ≡ true
      → time ≤ cost
      → IsExclusive s
      → IsPicked granted protocol iterations s t
      → execute granted iterations t s ≡ some u
      → Timely s
      → Timely (later_by time u)

  module _ {protocol : Protocol} (holds : Holds protocol) where
    step-IsTimely :
        (h : ControlPc) (t : Thread) (s u : System) (time : ℕ)
        → s.high_at ≡ h
        → time ≤ cost
        → IsExclusive s
        → IsPicked granted protocol iterations s t
        → execute granted iterations t s ≡ some u
        → Timely s
        → Timely (later_by time u)
    unfolding execute
    step-IsTimely (ControlPc.acquire i asked) t s u time q le x p e w =
        elim (Bool-cases (low_inside s.low_at)) [
          | inl inside ↦ holds t s u i asked time q inside le x p e w
          | inr outside ↦
              let mine = picked-free granted iterations all i asked x q outside p in
              high-IsTimely iterations cost rate burst most reserve law granted s.high_at s u time
                refl le (subst (λ r. execute granted iterations r s ≡ some u) mine e) w
        ]
    step-IsTimely (ControlPc.measure i asked) t s u time q le x p e w =
        let mine = picked-measure granted iterations all i asked x q p in
        high-IsTimely iterations cost rate burst most reserve law granted s.high_at s u time refl le
          (subst (λ r. execute granted iterations r s ≡ some u) mine e) w
    step-IsTimely ControlPc.unborn t s u time q le x p e w =
        quiet-IsTimely iterations cost rate burst most reserve law granted t s u time (rw q refl) le
          e w
    step-IsTimely h t s u time q le x p e w =
        quiet-IsTimely iterations cost rate burst most reserve law granted t s u time (rw q refl) le
          e w

    low_moves :
        (h : ControlPc) (m : HogPc) (clock k : ℕ)
        → Due h m (LowPc.asleep k) clock
        → Due h m LowPc.test clock
    low_moves (ControlPc.acquire i asked) m clock k due = due
    low_moves (ControlPc.measure i asked) m clock k due = due
    low_moves ControlPc.unborn m clock k due = tt
    low_moves h m clock k due = tt

    medium_moves :
        (h : ControlPc) (l : LowPc) (clock wake : ℕ)
        → wake ≤ clock
        → Due h (HogPc.asleep wake) l clock
        → Due h HogPc.test l clock
    medium_moves (ControlPc.acquire i asked) l clock wake le due =
        omega (arith, due, law.wakes wake clock le)
    medium_moves (ControlPc.measure i asked) l clock wake le due = due
    medium_moves ControlPc.unborn l clock wake le due = tt
    medium_moves h l clock wake le due = tt

    Woken-IsTimely : {s u : System} → Woken s u → Timely s → Timely u
    Woken-IsTimely (starter_woken k q le) w = record {
      short = w.short;
      covered = w.covered;
      due = w.due;
      within = w.within;
    }
    Woken-IsTimely {s} (low_woken k q le) w = record {
      short = omega arith;
      covered = w.covered;
      due =
          low_moves s.high_at s.medium_at s.clock k
            (subst (λ l. Due s.high_at s.medium_at l s.clock) q w.due);
      within = w.within;
    }
    Woken-IsTimely {s} (medium_woken k q le) w = record {
      short = w.short;
      covered = law.tests s.clock;
      due =
          medium_moves s.high_at s.low_at s.clock k le
            (subst (λ m. Due s.high_at m s.low_at s.clock) q w.due);
      within = w.within;
    }
    Woken-IsTimely (high_woken i k q le) w = record {
      short = w.short;
      covered = w.covered;
      due = tt;
      within = w.within;
    }

    -- While the control loop waits or is about to measure, some thread can run.
    idle-IsDue :
        (s : System) (time : ℕ)
        → IsExclusive s
        → ((t : Thread) → can_run granted iterations s t ≡ false)
        → (h : ControlPc) → s.high_at ≡ h
        → Due h s.medium_at s.low_at (s.clock + time)
    idle-IsDue s time x nobody (ControlPc.acquire i asked) q =
        elim (Bool-cases (low_inside s.low_at)) [
          | inl inside ↦
              absurd (clash (nobody low) (inside-can_run granted iterations all s inside))
          | inr outside ↦
              absurd
                (clash (nobody high) (free-can_run granted iterations all s i asked x q outside))
        ]
    idle-IsDue s time x nobody (ControlPc.measure i asked) q =
        absurd (clash (nobody high) (measure-can_run granted iterations all s i asked q))
    idle-IsDue s time x nobody ControlPc.unborn q = tt
    idle-IsDue s time x nobody h q = tt

    Reach-IsTimely :
        (clock sink : ℕ) {s : System}
        → reserve HogPc.unborn clock ≤ most
        → Reach granted protocol iterations cost (initial clock sink) s
        → Timely s
    Reach-IsTimely clock sink none_yet start = record {
      short = omega arith;
      covered = none_yet;
      due = tt;
      within = omega arith;
    }
    Reach-IsTimely clock sink none_yet (step {s} {u} r t time le p e) =
        step-IsTimely s.high_at t s u time refl le (Reach-IsExclusive granted iterations r) p e
          (Reach-IsTimely clock sink none_yet r)
    Reach-IsTimely clock sink none_yet (wakes {s} {u} r t e) =
        Woken-IsTimely (Woken-wake_up t s u e) (Reach-IsTimely clock sink none_yet r)
    Reach-IsTimely clock sink none_yet (idles {s} r time nobody) =
        let w = Reach-IsTimely clock sink none_yet r in
        record {
          short = w.short;
          covered = law.lasts s.medium_at s.clock time w.covered;
          due = idle-IsDue s time (Reach-IsExclusive granted iterations r) nobody s.high_at refl;
          within = w.within;
        }

    -- The budget bounds the longest wait.
    pub worst-le-budget :
        {clock sink : ℕ} {s : System}
        → reserve HogPc.unborn clock ≤ most
        → Reach granted protocol iterations cost (initial clock sink) s
        → rate * (1000 * pos_part s.worst)
          ≤ allowance iterations cost rate burst most reserve + rate * cost
    worst-le-budget {clock} {sink} none_yet r = (Reach-IsTimely clock sink none_yet r).within
