-- ===== src/Inversion/Threads/Finish.antt =====
-- The threads of case 06 can always go on to the last join, under either protocol.
use systems_postmortems.Prelude.{
  ℕ, zero, suc, ◌+◌, ◌≤◌, ◌<◌, ◌≡◌, ◌⊎◌, Bool, true, false, ◌&&◌, ◌||◌, not, Bool-cases, inl, inr,
  Option-cases, some, leb, if◌then◌else◌, arith,
}
use systems_postmortems.Inversion.Threads.{
  Thread, starter, low, medium, high, MainPc, System, execute, initial,
}
use systems_postmortems.Inversion.Threads.Scheduler.{
  Protocol, priority, can_run, IsPicked, Reach, start, step, wakes, idles,
}
use systems_postmortems.Inversion.Threads.Joins.{Reach-IsCounted}
use systems_postmortems.Inversion.Threads.Progress.{idle-Awaits}
use systems_postmortems.Inversion.Threads.Left.{left_at, execute-left_at, wake_up-left_at}
use systems_postmortems.Inversion.Threads.Outcome.{Reach-trans}

module _ (runs : Thread → Bool) (rank : Thread → ℕ) where
  -- The one of two threads that goes first, the first one if they are equal.
  better : Thread → Thread → Thread
  better a b = if runs a && (not (runs b) || leb (rank b) (rank a)) then a else b

  -- `t` runs and no thread of the three that goes first does.
  Beats : Thread → Thread → Type 0
  Beats t u = (runs u ≡ true) → (runs t ≡ true) × (rank u ≤ rank t)

  better-Beats : (a b u : Thread) → Beats a u ⊎ Beats b u → Beats (better a b) u
  unfolding better Beats
  better-Beats a b u (inl h) r =
      elim (Bool-cases (runs a && (not (runs b) || leb (rank b) (rank a)))) [
        | inl first ↦ rw first (h r)
        | inr second ↦ rw second (ground (arith, h r, second))
      ]
  better-Beats a b u (inr h) r =
      elim (Bool-cases (runs a && (not (runs b) || leb (rank b) (rank a)))) [
        | inl first ↦ rw first (ground (arith, h r, first))
        | inr second ↦ rw second (h r)
      ]

  itself : (t : Thread) → Beats t t
  unfolding Beats
  itself t r = (r, omega arith)

  best : Thread
  unfolding better
  best = better starter (better low (better medium high))

  best-Beats : (u : Thread) → Beats best u
  unfolding best
  best-Beats starter =
      better-Beats starter (better low (better medium high)) starter (inl (itself starter))
  best-Beats low =
      better-Beats starter (better low (better medium high)) low
        (inr (better-Beats low (better medium high) low (inl (itself low))))
  best-Beats medium = better-Beats starter (better low (better medium high)) medium (
      inr (
        better-Beats low (better medium high) medium
          (inr (better-Beats medium high medium (inl (itself medium))))))
  best-Beats high = better-Beats starter (better low (better medium high)) high (
      inr (
        better-Beats low (better medium high) high
          (inr (better-Beats medium high high (inr (itself high))))))

module _ (granted : Thread → Bool) (protocol : Protocol) (iterations : ℕ) where
  -- If a thread can run, the scheduler picks one.
  picks :
      (s : System) (t : Thread)
      → can_run granted iterations s t ≡ true
      → (u : Thread) × IsPicked granted protocol iterations s u
  unfolding Beats
  picks s t h =
      let runs : Thread → Bool = λ u. can_run granted iterations s u in
      let rank : Thread → ℕ = λ u. priority granted protocol s u in
      (
        best runs rank,
        record {
          runs = (best-Beats runs rank t h).0;
          highest = λ u r. (best-Beats runs rank u r).1;
        },
      )

  anyone :
      (s : System)
      → ((t : Thread) × (can_run granted iterations s t ≡ true))
        ⊎ ((t : Thread) → can_run granted iterations s t ≡ false)
  anyone s = elim (Bool-cases (can_run granted iterations s starter)) [
    | inl a ↦ inl (starter, a)
    | inr a ↦ elim (Bool-cases (can_run granted iterations s low)) [
      | inl b ↦ inl (low, b)
      | inr b ↦ elim (Bool-cases (can_run granted iterations s medium)) [
        | inl c ↦ inl (medium, c)
        | inr c ↦ elim (Bool-cases (can_run granted iterations s high)) [
          | inl d ↦ inl (high, d)
          | inr d ↦ inr (elim [ starter ↦ a | low ↦ b | medium ↦ c | high ↦ d ])
        ]
      ]
    ]
  ]

  runs-execute :
      (s : System) (t : Thread)
      → can_run granted iterations s t ≡ true
      → (u : System) × (execute granted iterations t s ≡ some u)
  runs-execute s t h = elim (Option-cases (execute granted iterations t s)) [
    | inl e ↦ absurd (ground (arith, h, e))
    | inr (u, e) ↦ (u, e)
  ]

  module _ (cost clock sink : ℕ) (lasts : 1 ≤ cost) where
    -- As long as `main` is not past its joins, some continuation leaves less.
    next :
        (s : System)
        → Reach granted protocol iterations cost (initial clock sink) s
        → (s.starter_at ≡ MainPc.past_joins)
          ⊎ ((u : System) × Reach granted protocol iterations cost s u
              × (left_at iterations u.clock u < left_at iterations s.clock s))
    next s r = elim (anyone s) [
      | inl (t, h) ↦
          let (v, p) = picks s t h in
          let (u, e) = runs-execute s v p.runs in
          inr (
            record u { clock = u.clock + 1 },
            step start v 1 lasts p e,
            execute-left_at iterations granted v s u (Reach-IsCounted granted iterations r) e,
          )
      | inr nobody ↦ elim (idle-Awaits granted iterations r nobody) [
        | inl past ↦ inl past
        | inr waits ↦
            let (time, t, u, e, less) =
              wake_up-left_at iterations granted s (Reach-IsCounted granted iterations r) waits in
            inr (u, wakes (idles start time nobody) t e, less)
      ]
    ]

    finish :
        (n : ℕ) (s : System)
        → Reach granted protocol iterations cost (initial clock sink) s
        → left_at iterations s.clock s ≤ n
        → (u : System) × Reach granted protocol iterations cost s u
          × (u.starter_at ≡ MainPc.past_joins)
    finish zero s r le = elim (next s r) [
      | inl past ↦ (s, start, past)
      | inr (v, goes, less) ↦ absurd (omega (arith, le, less))
    ]
    finish (suc n) s r le = elim (next s r) [
      | inl past ↦ (s, start, past)
      | inr (v, goes, less) ↦
          let (u, on, past) = finish n v (Reach-trans r goes) (omega (arith, le, less)) in
          (u, Reach-trans goes on, past)
    ]

  -- Under either protocol and whatever was granted, if a step may take a nanosecond: from every
  -- reachable state the threads can go on, as the scheduler allows, until `main` is past its joins.
  pub can_finish :
      {cost clock sink : ℕ}
      → 1 ≤ cost
      → (s : System) → Reach granted protocol iterations cost (initial clock sink) s
      → (u : System) × Reach granted protocol iterations cost s u
        × (u.starter_at ≡ MainPc.past_joins)
  can_finish {cost} {clock} {sink} lasts s r =
      finish cost clock sink lasts (left_at iterations s.clock s) s r (omega arith)
