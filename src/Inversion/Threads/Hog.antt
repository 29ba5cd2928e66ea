-- ===== src/Inversion/Threads/Hog.antt =====
-- Without inheritance the control loop waits out the burst of the middle thread.
use mathlib.Core.Option.{some-injective}
use systems_postmortems.Prelude.{
  ℕ, ◌+◌, ◌-◌, ◌/◌, ◌≤◌, ◌≡◌, ◌⊎◌, inl, inr, refl, ap, ◌∙◌, ltb, if◌then◌else◌, Bool, true,
  Bool-cases, some, arith, sym, subst,
}
use systems_postmortems.Prelude.Int.{pos, ◌≤ℤ◌}
use systems_postmortems.Inversion.Threads.{
  Thread, starter, low, medium, high, LowPc, HogPc, ControlPc, System, medium_step, execute,
}
use systems_postmortems.Inversion.Threads.Scheduler.{
  plain, IsPicked, Reach, start, step, wakes, idles,
}
use systems_postmortems.Inversion.Threads.Waking.{
  Woken, Woken-wake_up, starter_woken, low_woken, medium_woken, high_woken,
}
use systems_postmortems.Inversion.Threads.Exclusion.{
  low_inside, IsExclusive, Reach-IsExclusive_from,
}
use systems_postmortems.Inversion.Threads.Frames.{
  low_step-LowFrame, medium_step-MediumFrame, StarterFrame, starter_step-StarterFrame, HighFrame,
  high_step-HighFrame,
}
use systems_postmortems.Inversion.Threads.Picking.{picked-medium}

-- The control loop waits since `asked`, the lowest thread is in its critical section, and the middle
-- thread is in a burst until `deadline`.
pub record IsCaught (cycle asked deadline : ℕ) (at : LowPc) (s : System) : Type 0 where
  pub waiting : s.high_at ≡ ControlPc.acquire cycle asked
  pub held : s.low_at ≡ at
  pub inside : low_inside at ≡ true
  pub busy : s.medium_at ≡ HogPc.busy deadline

-- The cycle still waits, is about to measure, or has left its wait in g_worst_block_us.
abbrev pub Counts : (cycle asked least : ℕ) → System → Type 0
Counts cycle asked least s =
    (s.high_at ≡ ControlPc.acquire cycle asked)
    ⊎ (s.high_at ≡ ControlPc.measure cycle asked)
    ⊎ (pos least ≤ℤ s.worst)

module _ (granted : Thread → Bool) (iterations : ℕ) (all : (t : Thread) → granted t ≡ true)
    (cycle asked deadline : ℕ) where
  abbrev pub IsPaid : System → Type 0
  IsPaid = Counts cycle asked ((deadline - asked) / 1000)

  high-Counts :
      (h : ControlPc) (s u : System)
      → s.high_at ≡ h
      → deadline ≤ s.clock
      → HighFrame granted iterations h s u
      → IsPaid s
      → IsPaid u
  high-Counts h s u q late f (inl w) = inr (inl (f.acquired cycle asked (sym q ∙ w)))
  high-Counts h s u q late f (inr (inl w)) =
      inr (inr (omega (arith, late, f.measured cycle asked (sym q ∙ w))))
  high-Counts h s u q late f (inr (inr w)) = inr (inr (omega (arith, w, f.grows)))

  same-Counts : (s u : System) → u.high_at ≡ s.high_at → u.worst ≡ s.worst → IsPaid s → IsPaid u
  same-Counts s u a b (inl w) = inl (a ∙ w)
  same-Counts s u a b (inr (inl w)) = inr (inl (a ∙ w))
  same-Counts s u a b (inr (inr w)) = inr (inr (rw b w))

  starter-Counts :
      (s u : System) → IsExclusive s → StarterFrame granted iterations s u → IsPaid s → IsPaid u
  starter-Counts s u x f w = elim f.high_at [
    | inl same ↦ same-Counts s u same f.worst w
    | inr (entered, made) ↦ elim w [
      | inl a ↦ absurd (ground (arith, x.high_later, made, a))
      | inr (inl a) ↦ absurd (ground (arith, x.high_later, made, a))
      | inr (inr b) ↦ inr (inr (rw f.worst b))
    ]
  ]

  execute-Counts :
      (t : Thread) (s u : System)
      → IsExclusive s
      → deadline ≤ s.clock
      → execute granted iterations t s ≡ some u
      → IsPaid s
      → (deadline ≤ u.clock) × IsPaid u
  unfolding execute
  execute-Counts high s u x late e w =
      let f = high_step-HighFrame granted iterations s.high_at s u e in
      (omega (arith, late, f.clock), high-Counts s.high_at s u refl late f w)
  execute-Counts low s u x late e w =
      let f = (low_step-LowFrame granted iterations s.low_at s u e).same in
      (omega (arith, late, f.clock), same-Counts s u f.high_at f.worst w)
  execute-Counts medium s u x late e w =
      let f = (medium_step-MediumFrame granted iterations s.medium_at s u e).same in
      (omega (arith, late, f.clock), same-Counts s u f.high_at f.worst w)
  execute-Counts starter s u x late e w =
      let f = starter_step-StarterFrame granted iterations s.starter_at s u refl e in
      (omega (arith, late, f.clock), starter-Counts s u x f w)

  Woken-Counts : {s u : System} → Woken s u → IsPaid s → IsPaid u
  Woken-Counts (starter_woken k q le) w = w
  Woken-Counts (low_woken k q le) w = w
  Woken-Counts (medium_woken k q le) w = w
  Woken-Counts (high_woken i k q le) (inl w) = absurd (ground (arith, q, w))
  Woken-Counts (high_woken i k q le) (inr (inl w)) = absurd (ground (arith, q, w))
  Woken-Counts (high_woken i k q le) (inr (inr w)) = inr (inr w)

  Woken-clock : {s u : System} → Woken s u → u.clock ≡ s.clock
  Woken-clock (starter_woken k q le) = refl
  Woken-clock (low_woken k q le) = refl
  Woken-clock (medium_woken k q le) = refl
  Woken-clock (high_woken i k q le) = refl

  Woken-IsCaught :
      {at : LowPc} {s u : System}
      → Woken s u
      → IsCaught cycle asked deadline at s
      → IsCaught cycle asked deadline at u
  Woken-IsCaught (starter_woken k q le) c = record {
    waiting = c.waiting;
    held = c.held;
    inside = c.inside;
    busy = c.busy;
  }
  Woken-IsCaught (low_woken k q le) c = absurd (ground (arith, q, c.held, c.inside))
  Woken-IsCaught (medium_woken k q le) c = absurd (ground (arith, q, c.busy))
  Woken-IsCaught (high_woken i k q le) c = absurd (ground (arith, q, c.waiting))

  busy-medium_at :
      (s u : System)
      → s.medium_at ≡ HogPc.busy deadline
      → execute granted iterations medium s ≡ some u
      → u.medium_at ≡ (if ltb s.clock deadline then HogPc.busy deadline else HogPc.doze)
  unfolding execute medium_step
  busy-medium_at s u q e =
      let e' : medium_step granted iterations (HogPc.busy deadline) s ≡ some u =
        subst (λ h. medium_step granted iterations h s ≡ some u) q e in
      sym (ap (λ x. x.medium_at) (some-injective _ u e'))

  -- A step of the burst: it goes on, or its deadline has passed.
  busy-IsCaught :
      (at : LowPc) (s u : System)
      → execute granted iterations medium s ≡ some u
      → IsCaught cycle asked deadline at s
      → IsCaught cycle asked deadline at u ⊎ ((deadline ≤ u.clock) × IsPaid u)
  unfolding execute
  busy-IsCaught at s u e c =
      let f = medium_step-MediumFrame granted iterations s.medium_at s u e in
      let m = busy-medium_at s u c.busy e in
      let waiting = f.same.high_at ∙ c.waiting in
      elim (Bool-cases (ltb s.clock deadline)) [
        | inl early ↦ inl (record {
          waiting = waiting;
          held = f.low_at ∙ c.held;
          inside = c.inside;
          busy = m ∙ rw early;
        })
        | inr over ↦ inr (ground (arith, f.same.clock), inl waiting)
      ]

  module _ (cost : ℕ) (at : LowPc) {from : System} (x : IsExclusive from)
      (caught : IsCaught cycle asked deadline at from) where
    -- As long as the deadline has not passed, the lowest thread does not get on; after it, the wait
    -- counts from the deadline.
    IsPaying : System → Type 0
    IsPaying s = IsCaught cycle asked deadline at s ⊎ ((deadline ≤ s.clock) × IsPaid s)

    later_clock :
        {u : System} (time : ℕ)
        → IsCaught cycle asked deadline at u ⊎ ((deadline ≤ u.clock) × IsPaid u)
        → IsPaying (record u { clock = u.clock + time })
    unfolding IsPaying
    later_clock time (inl c) =
        inl (record { waiting = c.waiting; held = c.held; inside = c.inside; busy = c.busy })
    later_clock time (inr (late, w)) = inr (omega arith, w)

    step-IsPaying :
        (t : Thread) (s u : System) (time : ℕ)
        → IsExclusive s
        → IsPicked granted plain iterations s t
        → execute granted iterations t s ≡ some u
        → IsPaying s
        → IsPaying (record u { clock = u.clock + time })
    unfolding IsPaying
    step-IsPaying t s u time y p e (inl c) =
        let mine =
          picked-medium granted iterations all cycle asked deadline y c.waiting (rw c.held c.inside)
            c.busy p in
        later_clock time
          (busy-IsCaught at s u (subst (λ r. execute granted iterations r s ≡ some u) mine e) c)
    step-IsPaying t s u time y p e (inr (late, w)) =
        later_clock time (inr (execute-Counts t s u y late e w))

    Woken-IsPaying : {s u : System} → Woken s u → IsPaying s → IsPaying u
    unfolding IsPaying
    Woken-IsPaying {s} {u} k (inl c) = inl (Woken-IsCaught k c)
    Woken-IsPaying {s} {u} k (inr (late, w)) =
        inr (omega (arith, late, Woken-clock k), Woken-Counts k w)

    Reach-IsPaying : {s : System} → Reach granted plain iterations cost from s → IsPaying s
    unfolding IsPaying
    Reach-IsPaying start = inl caught
    Reach-IsPaying (step {s} {u} r t time le p e) =
        step-IsPaying t s u time (Reach-IsExclusive_from granted iterations x r) p e
          (Reach-IsPaying r)
    Reach-IsPaying (wakes {s} {u} r t e) = Woken-IsPaying (Woken-wake_up t s u e) (Reach-IsPaying r)
    Reach-IsPaying (idles {s} r time nobody) = later_clock time (Reach-IsPaying r)

    -- Without inheritance and with all three requests granted: in every state after this one, the
    -- control loop and the lowest thread are where they were, or the deadline of the burst has passed
    -- and the wait counts at least until then.
    pub waited_out :
        {s : System}
        → Reach granted plain iterations cost from s
        → IsCaught cycle asked deadline at s ⊎ ((deadline ≤ s.clock) × IsPaid s)
    unfolding IsPaying
    waited_out r = Reach-IsPaying r
