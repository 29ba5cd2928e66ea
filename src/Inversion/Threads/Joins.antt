-- ===== src/Inversion/Threads/Joins.antt =====
-- The joins of `main` in case 06, and the count of real-time threads, in every reachable state.
use mathlib.Core.Option.{some-injective}
use systems_postmortems.Prelude.{
  ℕ, zero, ◌+◌, ◌≡◌, refl, Bool, true, false, ◌&&◌, not, some, arith, subst,
}
use systems_postmortems.Inversion.Threads.{
  Thread, starter, low, medium, high, LowPc, HogPc, ControlPc, MainPc, System, low_over,
  medium_over, high_over, low_step, medium_step, starter_step, high_step, when-some, is_free,
  execute, initial,
}
use systems_postmortems.Inversion.Threads.Scheduler.{Protocol, Reach, start, step, wakes, idles}
use systems_postmortems.Inversion.Threads.Waking.{
  Woken, Woken-wake_up, starter_woken, low_woken, medium_woken, high_woken,
}

-- Which of its parts `main` has behind it.
abbrev low_made : MainPc → Bool
low_made MainPc.create_low = false
low_made _ = true

abbrev medium_made : MainPc → Bool
medium_made MainPc.create_low = false
medium_made MainPc.create_medium = false
medium_made _ = true

abbrev high_made : MainPc → Bool
high_made MainPc.join_high = true
high_made MainPc.stop = true
high_made MainPc.join_low = true
high_made MainPc.join_medium = true
high_made MainPc.past_joins = true
high_made _ = false

abbrev high_joined : MainPc → Bool
high_joined MainPc.stop = true
high_joined MainPc.join_low = true
high_joined MainPc.join_medium = true
high_joined MainPc.past_joins = true
high_joined _ = false

abbrev low_joined : MainPc → Bool
low_joined MainPc.join_medium = true
low_joined MainPc.past_joins = true
low_joined _ = false

abbrev all_joined : MainPc → Bool
all_joined MainPc.past_joins = true
all_joined _ = false

abbrev low_born : LowPc → Bool
low_born LowPc.unborn = false
low_born _ = true

abbrev medium_born : HogPc → Bool
medium_born HogPc.unborn = false
medium_born _ = true

abbrev high_born : ControlPc → Bool
high_born ControlPc.unborn = false
high_born _ = true

-- Whether `main` has cleared g_running.
abbrev pub stopped : MainPc → Bool
stopped MainPc.join_low = true
stopped MainPc.join_medium = true
stopped MainPc.past_joins = true
stopped _ = false

-- Whether a thread has called `setPriority`; before, it is not there or at its first instruction.
abbrev pub low_asked : LowPc → Bool
low_asked LowPc.unborn = false
low_asked LowPc.entry = false
low_asked _ = true

abbrev pub medium_asked : HogPc → Bool
medium_asked HogPc.unborn = false
medium_asked HogPc.entry = false
medium_asked _ = true

abbrev pub high_asked : ControlPc → Bool
high_asked ControlPc.unborn = false
high_asked ControlPc.entry = false
high_asked _ = true

abbrev pub one_if : Bool → ℕ
one_if true = 1
one_if false = 0

module _ (granted : Thread → Bool) where
  abbrev pub grants : System → ℕ
  grants s =
      one_if (low_asked s.low_at && granted low)
      + one_if (medium_asked s.medium_at && granted medium)
      + one_if (high_asked s.high_at && granted high)

  pub record IsCounted (s : System) : Type 0 where
    pub low_later : (not (low_made s.starter_at) && low_born s.low_at) ≡ false
    pub medium_later : (not (medium_made s.starter_at) && medium_born s.medium_at) ≡ false
    pub high_later : (not (high_made s.starter_at) && high_born s.high_at) ≡ false
    pub low_there : (low_made s.starter_at && not (low_born s.low_at)) ≡ false
    pub medium_there : (medium_made s.starter_at && not (medium_born s.medium_at)) ≡ false
    pub high_there : (high_made s.starter_at && not (high_born s.high_at)) ≡ false
    pub high_done : (high_joined s.starter_at && not (high_over s.high_at)) ≡ false
    pub low_done : (low_joined s.starter_at && not (low_over s.low_at)) ≡ false
    pub medium_done : (all_joined s.starter_at && not (medium_over s.medium_at)) ≡ false
    pub counted : s.rt_threads ≡ grants s
    pub cleared : (stopped s.starter_at && s.running) ≡ false

  moved : {v u : System} → some v ≡ some u → IsCounted v → IsCounted u
  moved {v} {u} e x = subst IsCounted (some-injective v u e) x

  module _ (iterations : ℕ) where
    low-IsCounted :
        (p : LowPc) (s u : System)
        → s.low_at ≡ p
        → low_step granted iterations p s ≡ some u
        → IsCounted s
        → IsCounted u
    unfolding low_step
    low-IsCounted LowPc.unborn s u q e x = absurd (cc)
    low-IsCounted LowPc.ended s u q e x = absurd (cc)
    low-IsCounted (LowPc.asleep wake) s u q e x = absurd (cc)
    low-IsCounted LowPc.acquire s u q e x =
        subst IsCounted (when-some (is_free s.owner) _ u e).1 (ground arith)
    low-IsCounted LowPc.entry s u q e x = moved e (ground arith)
    low-IsCounted (LowPc.spin zero state) s u q e x = moved e (ground arith)
    low-IsCounted p s u q e x = moved e (ground arith)

    high-IsCounted :
        (p : ControlPc) (s u : System)
        → s.high_at ≡ p
        → high_step granted iterations p s ≡ some u
        → IsCounted s
        → IsCounted u
    unfolding high_step
    high-IsCounted ControlPc.unborn s u q e x = absurd (cc)
    high-IsCounted ControlPc.ended s u q e x = absurd (cc)
    high-IsCounted (ControlPc.asleep i wake) s u q e x = absurd (cc)
    high-IsCounted (ControlPc.acquire i asked) s u q e x =
        subst IsCounted (when-some (is_free s.owner) _ u e).1 (ground arith)
    high-IsCounted ControlPc.entry s u q e x = moved e (ground arith)
    high-IsCounted p s u q e x = moved e (ground arith)

    medium-IsCounted :
        (p : HogPc) (s u : System)
        → s.medium_at ≡ p
        → medium_step granted iterations p s ≡ some u
        → IsCounted s
        → IsCounted u
    unfolding medium_step
    medium-IsCounted HogPc.unborn s u q e x = absurd (cc)
    medium-IsCounted HogPc.ended s u q e x = absurd (cc)
    medium-IsCounted (HogPc.asleep wake) s u q e x = absurd (cc)
    medium-IsCounted HogPc.entry s u q e x = moved e (ground arith)
    medium-IsCounted p s u q e x = moved e (ground arith)

    starter-IsCounted :
        (p : MainPc) (s u : System)
        → s.starter_at ≡ p
        → starter_step granted iterations p s ≡ some u
        → IsCounted s
        → IsCounted u
    unfolding starter_step
    starter-IsCounted MainPc.past_joins s u q e x = absurd (cc)
    starter-IsCounted (MainPc.asleep wake) s u q e x = absurd (cc)
    starter-IsCounted MainPc.join_high s u q e x =
        let (over, r) = when-some (high_over s.high_at) _ u e in subst IsCounted r (ground arith)
    starter-IsCounted MainPc.join_low s u q e x =
        let (over, r) = when-some (low_over s.low_at) _ u e in subst IsCounted r (ground arith)
    starter-IsCounted MainPc.join_medium s u q e x =
        let (over, r) = when-some (medium_over s.medium_at) _ u e in
        subst IsCounted r (ground arith)
    starter-IsCounted MainPc.create_low s u q e x = moved e (ground arith)
    starter-IsCounted p s u q e x = moved e (ground arith)

    execute-IsCounted :
        (t : Thread) (s u : System)
        → execute granted iterations t s ≡ some u
        → IsCounted s
        → IsCounted u
    unfolding execute
    execute-IsCounted starter s u e x = starter-IsCounted s.starter_at s u refl e x
    execute-IsCounted low s u e x = low-IsCounted s.low_at s u refl e x
    execute-IsCounted medium s u e x = medium-IsCounted s.medium_at s u refl e x
    execute-IsCounted high s u e x = high-IsCounted s.high_at s u refl e x

    at_time : (clock : ℕ) {s : System} → IsCounted s → IsCounted (record s { clock = clock })
    at_time clock x = record {
      low_later = x.low_later;
      medium_later = x.medium_later;
      high_later = x.high_later;
      low_there = x.low_there;
      medium_there = x.medium_there;
      high_there = x.high_there;
      high_done = x.high_done;
      low_done = x.low_done;
      medium_done = x.medium_done;
      counted = x.counted;
      cleared = x.cleared;
    }

    Woken-IsCounted : {s u : System} → Woken s u → IsCounted s → IsCounted u
    Woken-IsCounted (starter_woken k q le) x = ground arith
    Woken-IsCounted (low_woken k q le) x = ground arith
    Woken-IsCounted (medium_woken k q le) x = ground arith
    Woken-IsCounted (high_woken i k q le) x = ground arith

    pub Reach-IsCounted :
        {protocol : Protocol} {cost clock sink : ℕ} {s : System}
        → Reach granted protocol iterations cost (initial clock sink) s
        → IsCounted s
    Reach-IsCounted start = ground arith
    Reach-IsCounted (step {s} {u} r t time le p e) =
        at_time (u.clock + time) (execute-IsCounted t s u e (Reach-IsCounted r))
    Reach-IsCounted (wakes {s} {u} r t e) =
        Woken-IsCounted (Woken-wake_up t s u e) (Reach-IsCounted r)
    Reach-IsCounted (idles {s} r time nobody) = at_time (s.clock + time) (Reach-IsCounted r)

    -- When `main` is past its joins, all three threads have ended, and g_rt_threads is the number of
    -- those whose request was granted.
    pub past_joins-rt_threads :
        {protocol : Protocol} {cost clock sink : ℕ} {s : System}
        → Reach granted protocol iterations cost (initial clock sink) s
        → s.starter_at ≡ MainPc.past_joins
        → (s.low_at ≡ LowPc.ended)
          × (s.medium_at ≡ HogPc.ended)
          × (s.high_at ≡ ControlPc.ended)
          × (s.rt_threads ≡ one_if (granted low) + one_if (granted medium) + one_if (granted high))
    past_joins-rt_threads {s} r q =
        let x = Reach-IsCounted r in
        let a : s.low_at ≡ LowPc.ended = ground (arith, x.low_done, q) in
        let b : s.medium_at ≡ HogPc.ended = ground (arith, x.medium_done, q) in
        let c : s.high_at ≡ ControlPc.ended = ground (arith, x.high_done, q) in
        (a, b, c, ground (arith, x.counted, a, b, c))
