-- ===== src/Inversion/Threads/Budget/Steps.antt =====
-- The steps of the control loop, and every step made while it does not wait, keep the budget.
use mathlib.Core.Option.{some-injective}
use native.Mathlib.Nat.{mul-le-mul_left, mul-le-mul_right}
use systems_postmortems.Inversion.Control.{cycles, one_cycle}
use systems_postmortems.Prelude.{
  ℕ, ◌+◌, ◌-◌, ◌/◌, ◌*◌, ◌≤◌, ◌≡◌, inl, inr, refl, ap, ltb, if◌then◌else◌, Bool, Bool-cases, true,
  false, some, arith, subst, dec_lt,
}
use systems_postmortems.Prelude.Int.{ℤ, pos, pos_part, ltb_ℤ}
use systems_postmortems.Inversion.Threads.{
  Thread, starter, low, medium, high, LowPc, HogPc, ControlPc, System, high_step, when-some,
  is_free, execute,
}
use systems_postmortems.Inversion.Threads.Frames.{
  left, low_step-LowFrame, medium_step-MediumFrame, starter_step-StarterFrame,
}
use systems_postmortems.Inversion.Threads.Budget.{
  IsReserve, share, allowance, IsDue, IsTimely, later_by, rate-add, timely,
}

module _ (iterations cost rate burst most : ℕ) (reserve : HogPc → ℕ → ℕ)
    (law : IsReserve cost burst most reserve) (granted : Thread → Bool) where
  abbrev Timely : System → Type 0
  Timely = IsTimely iterations cost rate burst most reserve

  abbrev Due : ControlPc → HogPc → LowPc → ℕ → Type 0
  Due = IsDue iterations cost rate burst most reserve

  abbrev budget : ℕ
  budget = allowance iterations cost rate burst most reserve

  -- The time that a step takes passes on, over a state that the step leads to.
  reaches :
      {v u : System} (time : ℕ)
      → some v ≡ some u
      → Timely (later_by time v)
      → Timely (later_by time u)
  reaches {v} {u} time e w = subst (λ x. Timely (later_by time x)) (some-injective v u e) w

  asks-IsDue :
      (b : Bool) (i clock time : ℕ) (m : HogPc) (l : LowPc)
      → time ≤ cost
      → left l ≤ iterations + 2
      → reserve m (clock + time) ≤ most
      → Due (if b then ControlPc.acquire i clock else ControlPc.ended) m l (clock + time)
  asks-IsDue true i clock time m l le short covered = omega (
    arith,
    covered,
    rate-add iterations cost rate burst most reserve clock time,
    mul-le-mul_left rate le,
    mul-le-mul_right (share iterations cost rate burst most reserve) short,
  )
  asks-IsDue false i clock time m l le short covered = tt

  waited_bound : (clock asked k : ℕ) → rate * clock ≤ rate * asked + k → rate * (clock - asked) ≤ k
  waited_bound clock asked k h = elim (dec_lt clock asked) [
    | yes lt ↦ let none_left : clock - asked ≡ 0 = omega arith in rw none_left (omega arith)
    | no le ↦
        let split : clock ≡ asked + (clock - asked) = omega arith in
        omega (
          arith,
          h,
          ap (λ n. rate * n) split,
          rate-add iterations cost rate burst most reserve asked (clock - asked),
        )
  ]

  measured-bound :
      (clock asked : ℕ) (worst : ℤ) (k : ℕ)
      → rate * clock ≤ rate * asked + k
      → rate * (1000 * pos_part worst) ≤ k
      → rate * (1000 * pos_part (one_cycle (pos ((clock - asked) / 1000)) worst)) ≤ k
  unfolding one_cycle
  measured-bound clock asked worst k h w =
      let n : ℕ = (clock - asked) / 1000 in
      let whole : 1000 * n ≤ clock - asked = omega arith in
      elim (Bool-cases (ltb_ℤ worst (pos n))) [
        | inl longer ↦
            rw longer (omega (arith, waited_bound clock asked k h, mul-le-mul_left rate whole))
        | inr not_longer ↦ rw not_longer w
      ]

  pub high-IsTimely :
      (h : ControlPc) (s u : System) (time : ℕ)
      → s.high_at ≡ h
      → time ≤ cost
      → high_step granted iterations h s ≡ some u
      → Timely s
      → Timely (later_by time u)
  unfolding high_step
  high-IsTimely ControlPc.unborn s u time q le e w = absurd (cc)
  high-IsTimely ControlPc.ended s u time q le e w = absurd (cc)
  high-IsTimely (ControlPc.asleep i wake) s u time q le e w = absurd (cc)
  high-IsTimely ControlPc.entry s u time q le e w = reaches time e (record {
    short = w.short;
    covered = law.lasts s.medium_at s.clock time w.covered;
    due = tt;
    within = w.within;
  })
  high-IsTimely (ControlPc.test i) s u time q le e w =
      let covered = law.lasts s.medium_at s.clock time w.covered in
      reaches time e (record {
        short = w.short;
        covered = covered;
        due = asks-IsDue (ltb i cycles) i s.clock time s.medium_at s.low_at le w.short covered;
        within = w.within;
      })
  high-IsTimely (ControlPc.acquire i asked) s u time q le e w =
      let due : Due (ControlPc.acquire i asked) s.medium_at s.low_at s.clock =
        subst (λ k. Due k s.medium_at s.low_at s.clock) q w.due in
      subst (λ x. Timely (later_by time x)) (when-some (is_free s.owner) _ u e).1
        (record {
          short = w.short;
          covered = law.lasts s.medium_at s.clock time w.covered;
          due = omega (
            arith,
            due,
            rate-add iterations cost rate burst most reserve s.clock time,
            mul-le-mul_left rate le,
          );
          within = w.within;
        })
  high-IsTimely (ControlPc.measure i asked) s u time q le e w =
      let due : Due (ControlPc.measure i asked) s.medium_at s.low_at s.clock =
        subst (λ k. Due k s.medium_at s.low_at s.clock) q w.due in
      reaches time e (record {
        short = w.short;
        covered = law.lasts s.medium_at s.clock time w.covered;
        due = tt;
        within =
            measured-bound s.clock asked s.worst (budget + rate * cost) (omega (arith, due))
              w.within;
      })
  high-IsTimely (ControlPc.release i) s u time q le e w = reaches time e (record {
    short = w.short;
    covered = law.lasts s.medium_at s.clock time w.covered;
    due = tt;
    within = w.within;
  })
  high-IsTimely (ControlPc.doze i) s u time q le e w = reaches time e (record {
    short = w.short;
    covered = law.lasts s.medium_at s.clock time w.covered;
    due = tt;
    within = w.within;
  })

  abbrev pub is_quiet : ControlPc → Bool
  is_quiet (ControlPc.acquire i asked) = false
  is_quiet (ControlPc.measure i asked) = false
  is_quiet _ = true

  quiet-IsDue :
      (h : ControlPc) (m : HogPc) (l : LowPc) (clock : ℕ) → is_quiet h ≡ true → Due h m l clock
  quiet-IsDue (ControlPc.acquire i asked) m l clock e = absurd (cc)
  quiet-IsDue (ControlPc.measure i asked) m l clock e = absurd (cc)
  quiet-IsDue ControlPc.unborn m l clock e = tt
  quiet-IsDue h m l clock e = tt

  pub quiet-IsTimely :
      (t : Thread) (s u : System) (time : ℕ)
      → is_quiet s.high_at ≡ true
      → time ≤ cost
      → execute granted iterations t s ≡ some u
      → Timely s
      → Timely (later_by time u)
  unfolding execute
  quiet-IsTimely high s u time q le e w = high-IsTimely s.high_at s u time refl le e w
  quiet-IsTimely low s u time q le e w =
      let f = low_step-LowFrame granted iterations s.low_at s u e in
      timely iterations cost rate burst most reserve s.high_at time u f.same.high_at
        (f.bound w.short)
        (rw (f.medium_at, f.same.clock) (law.lasts s.medium_at s.clock time w.covered))
        (quiet-IsDue s.high_at u.medium_at u.low_at (u.clock + time) q) (rw f.same.worst w.within)
  quiet-IsTimely medium s u time q le e w =
      let f = medium_step-MediumFrame granted iterations s.medium_at s u e in
      timely iterations cost rate burst most reserve s.high_at time u f.same.high_at
        (rw f.low_at w.short)
        (rw f.same.clock (law.moves granted iterations s u time e le w.covered))
        (quiet-IsDue s.high_at u.medium_at u.low_at (u.clock + time) q) (rw f.same.worst w.within)
  quiet-IsTimely starter s u time q le e w =
      let f = starter_step-StarterFrame granted iterations s.starter_at s u refl e in
      let short : left u.low_at ≤ iterations + 2 = elim f.low_at [
        | inl old ↦ rw old w.short
        | inr new ↦ rw new (omega arith)
      ] in
      let covered : reserve u.medium_at (u.clock + time) ≤ most = elim f.medium_at [
        | inl old ↦ rw (old, f.clock) (law.lasts s.medium_at s.clock time w.covered)
        | inr new ↦ rw new (law.starts (u.clock + time))
      ] in
      let bound : rate * (1000 * pos_part u.worst) ≤ budget + rate * cost = rw f.worst w.within in
      elim f.high_at [
        | inl old ↦
            timely iterations cost rate burst most reserve s.high_at time u old short covered
              (quiet-IsDue s.high_at u.medium_at u.low_at (u.clock + time) q) bound
        | inr (new, made) ↦
            timely iterations cost rate burst most reserve ControlPc.entry time u new short covered
              tt bound
      ]
