-- ===== src/Inversion/Threads/Budget.antt =====
-- The wait of the control loop in case 06 against a budget: a time unit of a wait costs `rate`, a time
-- unit of a pause of the middle thread earns `burst`, and `reserve` is what the middle thread may
-- still take from where it is. `share` is what a step of the critical section is worth.
pub mod Steps
pub mod Kept
use mathlib.Core.Option.{some-injective}
use native.Mathlib.Nat.{suc-mul, mul-add, mul-le-mul_left, mul-le-mul_right}
use systems_postmortems.Inversion.Control.{cycles, one_cycle}
use systems_postmortems.Prelude.{
  ℕ, ◌+◌, ◌-◌, ◌/◌, ◌*◌, ◌≤◌, ◌≡◌, inl, inr, refl, ap, ◌∙◌, ltb, if◌then◌else◌, Bool, Bool-cases,
  true, false, some, arith, sym, subst, dec_lt,
}
use systems_postmortems.Prelude.Int.{ℤ, pos, pos_part, ltb_ℤ}
use systems_postmortems.Inversion.Threads.{
  Thread, starter, low, medium, high, LowPc, HogPc, ControlPc, System, low_step, medium_step,
  high_step, when-some, is_free, execute,
}
use systems_postmortems.Inversion.Threads.Exclusion.{low_inside}
use systems_postmortems.Inversion.Threads.Frames.{
  left, low_step-LowFrame, medium_step-MediumFrame, starter_step-StarterFrame,
}

abbrev pub later_by : ℕ → System → System
later_by time u = record u { clock = u.clock + time }

-- What is asked of the reserve: it is at most `most`, it grows by at most `burst` in a time unit, and
-- it is not less in a pause whose time has come than behind it.
pub record IsReserve (cost burst most : ℕ) (reserve : HogPc → ℕ → ℕ) : Type 0 where
  pub grows :
      (m : HogPc) (clock time : ℕ) → reserve m (clock + time) ≤ reserve m clock + burst * time
  pub lasts :
      (m : HogPc) (clock time : ℕ) → reserve m clock ≤ most → reserve m (clock + time) ≤ most
  pub starts : (clock : ℕ) → reserve HogPc.entry clock ≤ most
  pub wakes :
      (wake clock : ℕ) → wake ≤ clock → reserve HogPc.test clock ≤ reserve (HogPc.asleep wake) clock
  pub tests : (clock : ℕ) → reserve HogPc.test clock ≤ most
  pub moves :
      (granted : Thread → Bool) (iterations : ℕ) (s u : System) (time : ℕ)
      → medium_step granted iterations s.medium_at s ≡ some u
      → time ≤ cost
      → reserve s.medium_at s.clock ≤ most
      → reserve u.medium_at (s.clock + time) ≤ most

module _ (iterations cost rate burst most : ℕ) (reserve : HogPc → ℕ → ℕ) where
  abbrev pub share : ℕ
  share = rate * cost + burst * cost

  -- What a wait has when it begins.
  abbrev pub allowance : ℕ
  allowance = rate * cost + (iterations + 2) * share + most

  abbrev pub IsDue : ControlPc → HogPc → LowPc → ℕ → Type 0
  IsDue (ControlPc.acquire i asked) m l clock =
      rate * clock + left l * share + reserve m clock ≤ rate * asked + allowance
  IsDue (ControlPc.measure i asked) m l clock =
      rate * clock ≤ rate * asked + allowance + rate * cost
  IsDue _ m l clock = Unit {0}

  pub record IsTimely (s : System) : Type 0 where
    pub short : left s.low_at ≤ iterations + 2
    pub covered : reserve s.medium_at s.clock ≤ most
    pub due : IsDue s.high_at s.medium_at s.low_at s.clock
    pub within : rate * (1000 * pos_part s.worst) ≤ allowance + rate * cost

  pub rate-add : (clock time : ℕ) → rate * (clock + time) ≡ rate * clock + rate * time
  rate-add clock time = mul-add rate clock time

  -- The time of a step is paid by its share.
  pub paid : (time : ℕ) → time ≤ cost → rate * time + burst * time ≤ share
  paid time le = omega (arith, mul-le-mul_left rate le, mul-le-mul_left burst le)

  share-add : (n : ℕ) → (n + 1) * share ≡ n * share + share
  share-add n = omega (arith, suc-mul n share)

  -- The parts of the invariant after a step, from the step's effect on the parts of the state.
  pub timely :
      (h : ControlPc) (time : ℕ) (u : System)
      → u.high_at ≡ h
      → left u.low_at ≤ iterations + 2
      → reserve u.medium_at (u.clock + time) ≤ most
      → IsDue h u.medium_at u.low_at (u.clock + time)
      → rate * (1000 * pos_part u.worst) ≤ allowance + rate * cost
      → IsTimely (later_by time u)
  timely h time u q short covered due within = record {
    short = short;
    covered = covered;
    due = subst (λ k. IsDue k u.medium_at u.low_at (u.clock + time)) (sym q) due;
    within = within;
  }

  module _ (law : IsReserve cost burst most reserve) (granted : Thread → Bool) where
    pub low-IsTimely :
        (s u : System) (i asked time : ℕ)
        → s.high_at ≡ ControlPc.acquire i asked
        → low_inside s.low_at ≡ true
        → time ≤ cost
        → low_step granted iterations s.low_at s ≡ some u
        → IsTimely s
        → IsTimely (later_by time u)
    low-IsTimely s u i asked time q h le e w =
        let f = low_step-LowFrame granted iterations s.low_at s u e in
        let due : IsDue (ControlPc.acquire i asked) s.medium_at s.low_at s.clock =
          subst (λ k. IsDue k s.medium_at s.low_at s.clock) q w.due in
        let fell : left s.low_at * share ≡ left u.low_at * share + share =
          ap (λ n. n * share) (sym (f.falls h)) ∙ share-add (left u.low_at) in
        let now : reserve u.medium_at (u.clock + time)
            ≤ reserve s.medium_at s.clock + burst * time =
          rw (f.medium_at, f.same.clock) (law.grows s.medium_at s.clock time) in
        timely (ControlPc.acquire i asked) time u (f.same.high_at ∙ q) (f.bound w.short)
          (rw (f.medium_at, f.same.clock) (law.lasts s.medium_at s.clock time w.covered))
          (omega (
            arith,
            due,
            fell,
            now,
            paid time le,
            rate-add s.clock time,
            ap (λ k. rate * (k + time)) f.same.clock,
          ))
          (rw f.same.worst w.within)
