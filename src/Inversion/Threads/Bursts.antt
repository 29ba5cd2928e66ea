-- ===== src/Inversion/Threads/Bursts.antt =====
-- Without inheritance the wait of the control loop is bounded as well: while the middle thread pauses,
-- the lowest one gets on, so a critical section meets only so many bursts.
use mathlib.Core.Option.{some-injective}
use native.Mathlib.Nat.{mul-add, add-mul, mul_comm, mul_left_comm, mul-le-mul_left}
use systems_postmortems.Prelude.{
  ℕ, ◌+◌, ◌-◌, ◌*◌, ◌≤◌, ◌≡◌, ◌≢◌, ◌⊎◌, inl, inr, refl, sym, ap, ◌∙◌, some, Bool, true, false,
  Bool-cases, ltb, if◌then◌else◌, arith, subst, ltb→lt,
}
use systems_postmortems.Prelude.Int.{pos_part}
use systems_postmortems.Inversion.Threads.{
  Thread, HogPc, ControlPc, hog_burst, hog_idle, medium_step, execute, initial, System,
}
use systems_postmortems.Inversion.Threads.Scheduler.{plain, Reach}
use systems_postmortems.Inversion.Threads.Frames.{medium_step-MediumFrame}
use systems_postmortems.Inversion.Threads.Budget.{IsReserve, IsDue, later_by, timely, low-IsTimely}
use systems_postmortems.Inversion.Threads.Picking.{picked-plain}
use systems_postmortems.Inversion.Threads.Budget.Kept.{Timely, Holds, worst-le-budget}

module _ (cost : ℕ) where
  -- What a pause of the middle thread leaves to the others at least.
  abbrev pub window : ℕ
  window = hog_idle - cost

  -- A burst with the steps before, in and behind it, at most.
  abbrev pub spell : ℕ
  spell = hog_burst + cost + cost + cost + cost

  abbrev most : ℕ
  most = window * spell

  abbrev reserve : HogPc → ℕ → ℕ
  reserve HogPc.unborn clock = 0
  reserve HogPc.entry clock = 0
  reserve HogPc.test clock = most
  reserve HogPc.begin_busy clock = window * (hog_burst + cost + cost + cost)
  reserve (HogPc.busy deadline) clock = window * (deadline + cost - clock + cost + cost)
  reserve HogPc.doze clock = window * cost
  reserve (HogPc.asleep wake) clock = spell * (window - (wake - clock))
  reserve HogPc.ended clock = 0

  reserve_grows :
      (m : HogPc) (clock time : ℕ) → reserve m (clock + time) ≤ reserve m clock + spell * time
  reserve_grows (HogPc.asleep wake) clock time =
      let slower : window - (wake - (clock + time)) ≤ (window - (wake - clock)) + time =
        omega arith in
      omega (arith, mul-le-mul_left spell slower, mul-add spell (window - (wake - clock)) time)
  reserve_grows (HogPc.busy deadline) clock time =
      let falls : deadline + cost - (clock + time) + cost + cost
          ≤ deadline + cost - clock + cost + cost =
        omega arith in
      omega (arith, mul-le-mul_left window falls)
  reserve_grows HogPc.unborn clock time = omega arith
  reserve_grows m clock time = omega arith

  reserve_lasts :
      (m : HogPc) (clock time : ℕ) → reserve m clock ≤ most → reserve m (clock + time) ≤ most
  reserve_lasts (HogPc.asleep wake) clock time le =
      let within : window - (wake - (clock + time)) ≤ window = omega arith in
      omega (arith, mul-le-mul_left spell within, mul_comm spell window)
  reserve_lasts (HogPc.busy deadline) clock time le =
      let falls : deadline + cost - (clock + time) + cost + cost
          ≤ deadline + cost - clock + cost + cost =
        omega arith in
      omega (arith, le, mul-le-mul_left window falls)
  reserve_lasts HogPc.unborn clock time le = le
  reserve_lasts m clock time le = le

  reserve_wakes : (wake clock : ℕ) → wake ≤ clock → most ≤ reserve (HogPc.asleep wake) clock
  reserve_wakes wake clock le =
      let whole : window - (wake - clock) ≡ window = omega arith in
      omega (arith, ap (λ n. spell * n) whole, mul_comm spell window)

  within : (time x y : ℕ) → time + x ≤ y → window * time + window * x ≤ window * y
  within time x y h = omega (arith, mul-le-mul_left window h, mul-add window time x)

  -- What a step to `m` leaves in the reserve, from what it had.
  Pays : (had clock time : ℕ) → HogPc → Type 0
  Pays had clock time m = window * time + reserve m (clock + time) ≤ had

  test-Pays :
      (running : Bool) (clock time : ℕ)
      → time ≤ cost
      → Pays most clock time (if running then HogPc.begin_busy else HogPc.ended)
  unfolding Pays
  test-Pays true clock time le =
      within time (hog_burst + cost + cost + cost) spell (omega (arith, le))
  test-Pays false clock time le =
      let rest = within time 0 spell (omega (arith, le)) in omega (arith, rest)

  begin-Pays :
      (clock time : ℕ)
      → time ≤ cost
      → Pays (reserve HogPc.begin_busy clock) clock time (HogPc.busy (clock + hog_burst))
  unfolding Pays
  begin-Pays clock time le = within time _ _ (omega (arith, le))

  busy-Pays :
      (deadline clock time : ℕ)
      → time ≤ cost
      → Pays
          (reserve (HogPc.busy deadline) clock)
          clock
          time
          (if ltb clock deadline then HogPc.busy deadline else HogPc.doze)
  unfolding Pays
  busy-Pays deadline clock time le = elim (Bool-cases (ltb clock deadline)) [
    | inl early ↦ rw early (within time _ _ (omega (arith, le, ltb→lt _ _ early)))
    | inr over ↦ rw over (within time cost _ (omega (arith, le)))
  ]

  doze-Pays :
      (clock time : ℕ)
      → time ≤ cost
      → Pays (window * cost) clock time (HogPc.asleep (clock + hog_idle))
  unfolding Pays
  doze-Pays clock time le =
      let none_yet : window - (clock + hog_idle - (clock + time)) ≡ 0 = omega (arith, le) in
      omega (arith, mul-le-mul_left window le, ap (λ n. spell * n) none_yet)

  -- A step of the middle thread takes its time from the reserve.
  reserve-Pays :
      (granted : Thread → Bool) (iterations : ℕ) (m : HogPc) (s u : System) (time : ℕ)
      → medium_step granted iterations m s ≡ some u
      → time ≤ cost
      → ((m ≡ HogPc.entry) × (u.medium_at ≡ HogPc.test))
        ⊎ Pays (reserve m s.clock) s.clock time u.medium_at
  unfolding medium_step
  reserve-Pays granted iterations HogPc.unborn s u time e le = absurd (cc)
  reserve-Pays granted iterations HogPc.ended s u time e le = absurd (cc)
  reserve-Pays granted iterations (HogPc.asleep wake) s u time e le = absurd (cc)
  reserve-Pays granted iterations HogPc.entry s u time e le =
      inl (refl, sym (ap (λ x. x.medium_at) (some-injective _ u e)))
  reserve-Pays granted iterations HogPc.test s u time e le = inr (
      subst (λ x. Pays (reserve HogPc.test s.clock) s.clock time x.medium_at) (some-injective _ u e)
        (test-Pays s.running s.clock time le))
  reserve-Pays granted iterations HogPc.begin_busy s u time e le = inr (
      subst (λ x. Pays (reserve HogPc.begin_busy s.clock) s.clock time x.medium_at)
        (some-injective _ u e) (begin-Pays s.clock time le))
  reserve-Pays granted iterations (HogPc.busy deadline) s u time e le = inr (
      subst (λ x. Pays (reserve (HogPc.busy deadline) s.clock) s.clock time x.medium_at)
        (some-injective _ u e) (busy-Pays deadline s.clock time le))
  reserve-Pays granted iterations HogPc.doze s u time e le = inr (
      subst (λ x. Pays (reserve HogPc.doze s.clock) s.clock time x.medium_at) (some-injective _ u e)
        (doze-Pays s.clock time le))

  reserve-IsReserve : IsReserve cost spell most reserve
  unfolding Pays
  reserve-IsReserve = record {
    grows = reserve_grows;
    lasts = reserve_lasts;
    starts = λ clock. omega arith;
    wakes = reserve_wakes;
    tests = λ clock. omega arith;
    moves = λ granted iterations s u time e le fits.
        elim (reserve-Pays granted iterations s.medium_at s u time e le) [
          | inl (_, tested) ↦ rw tested (omega arith)
          | inr pays ↦ omega (arith, pays, fits)
        ];
  }

  module _ (granted : Thread → Bool) (iterations : ℕ) (all : (t : Thread) → granted t ≡ true) where
    medium-Timely :
        (s u : System) (i asked time : ℕ)
        → s.high_at ≡ ControlPc.acquire i asked
        → s.medium_at ≢ HogPc.entry
        → time ≤ cost
        → medium_step granted iterations s.medium_at s ≡ some u
        → Timely granted iterations all cost window spell most reserve-IsReserve s
        → Timely granted iterations all cost window spell most reserve-IsReserve (later_by time u)
    unfolding Pays
    medium-Timely s u i asked time q past_entry le e w =
        let f = medium_step-MediumFrame granted iterations s.medium_at s u e in
        let due : IsDue iterations cost window spell most reserve (ControlPc.acquire i asked)
            s.medium_at s.low_at s.clock =
          subst
            (λ k. IsDue iterations cost window spell most reserve k s.medium_at s.low_at s.clock) q
            w.due in
        let pays : window * time + reserve u.medium_at (s.clock + time)
            ≤ reserve s.medium_at s.clock =
          elim (reserve-Pays granted iterations s.medium_at s u time e le) [
            | inl (first, _) ↦ absurd (past_entry first)
            | inr pays ↦ pays
          ] in
        timely iterations cost window spell most reserve (ControlPc.acquire i asked) time u
          (f.same.high_at ∙ q) (rw f.low_at w.short)
          (rw f.same.clock (omega (arith, pays, w.covered)))
          (rw (f.same.clock, f.low_at) (omega (arith, pays, due, mul-add window s.clock time)))
          (rw f.same.worst w.within)

    plain-Holds : Holds granted iterations all cost window spell most reserve-IsReserve plain
    unfolding execute
    plain-Holds t s u i asked time q inside le x p e w =
        elim (picked-plain granted iterations all i asked x q inside p) [
          | inl mine ↦
              low-IsTimely iterations cost window spell most reserve reserve-IsReserve granted s u i
                asked time q inside le (subst (λ r. execute granted iterations r s ≡ some u) mine e)
                w
          | inr (mine, past_entry) ↦
              medium-Timely s u i asked time q past_entry le
                (subst (λ r. execute granted iterations r s ≡ some u) mine e) w
        ]

    -- Without inheritance and with all three requests granted, in every reachable state of a run in
    -- which no step takes more than `cost`: `window` times g_worst_block_us in nanoseconds is at
    -- most `window` times the time of `iterations` + 4 steps and one burst with four steps, and that
    -- burst times the time of `iterations` + 2 steps. So the wait counts a burst once, and once more
    -- for each `window` of the critical section.
    pub plain-bounded :
        {clock sink : ℕ} {s : System}
        → Reach granted plain iterations cost (initial clock sink) s
        → window * (1000 * pos_part s.worst)
          ≤ window * ((iterations + 4) * cost + spell) + spell * ((iterations + 2) * cost)
    plain-bounded r =
        let within =
          worst-le-budget granted iterations all cost window spell most reserve-IsReserve
            plain-Holds (omega arith) r in
        let four : iterations + 4 ≡ (iterations + 2) + 2 = omega arith in
        let steps : (iterations + 4) * cost ≡ (iterations + 2) * cost + (cost + cost) =
          omega (arith, add-mul (iterations + 2) 2 cost, ap (λ n. n * cost) four) in
        omega (
          arith,
          within,
          mul-add (iterations + 2) (window * cost) (spell * cost),
          mul_left_comm (iterations + 2) window cost,
          mul_left_comm (iterations + 2) spell cost,
          mul-add window ((iterations + 4) * cost) spell,
          ap (λ n. window * n) steps,
          mul-add window ((iterations + 2) * cost) (cost + cost),
          mul-add window cost cost,
        )
