-- ===== src/Inversion/Threads/Simulation.antt =====
-- A scheduler for case 06 that can be executed. Each of its moves checks that it is allowed, and does
-- nothing if not.
use systems_postmortems.Prelude.{
  ℕ, zero, suc, ◌+◌, ◌≤◌, ◌≡◌, inl, inr, Bool, true, false, ◌&&◌, ◌||◌, not, Bool-cases, Option,
  none, some, Option-cases, leb, if◌then◌else◌, arith,
}
use systems_postmortems.Inversion.Threads.{
  Thread, starter, low, medium, high, System, execute, wake_up,
}
use systems_postmortems.Inversion.Threads.Scheduler.{
  Protocol, priority, can_run, IsPicked, Reach, step, wakes, idles,
}

and_all :
    (a b c d e : Bool)
    → (a && b && c && d && e) ≡ true
    → (a ≡ true) × (b ≡ true) × (c ≡ true) × (d ≡ true) × (e ≡ true)
and_all a b c d e h = ground (arith, h)

not-true : (b : Bool) → not b ≡ true → b ≡ false
not-true b h = ground (arith, h)

abbrev or_stay : System → Option System → System
or_stay s none = s
or_stay s (some u) = u

abbrev after : ℕ → Option System → Option System
after time none = none
after time (some u) = some (record u { clock = u.clock + time })

-- Answers and durations for the concrete runs, in nanoseconds.
abbrev pub always : Thread → Bool
always t = true

abbrev pub takes : Thread → ℕ
takes starter = 1000
takes low = 700_000
takes medium = 1_000_000
takes high = 1000

pub cheap : (t : Thread) → takes t ≤ 1_000_000
cheap t = ground arith

module _ (granted : Thread → Bool) (protocol : Protocol) (iterations : ℕ) where
  abbrev beats : System → Thread → Thread → Bool
  beats s t u =
      not (can_run granted iterations s u)
      || leb (priority granted protocol s u) (priority granted protocol s t)

  abbrev is_picked : System → Thread → Bool
  is_picked s t =
      can_run granted iterations s t
      && beats s t starter
      && beats s t low
      && beats s t medium
      && beats s t high

  beats-le :
      (s : System) (t u : Thread)
      → beats s t u ≡ true
      → can_run granted iterations s u ≡ true
      → priority granted protocol s u ≤ priority granted protocol s t
  beats-le s t u b c = ground (arith, b, c)

  is_picked-IsPicked :
      (s : System) (t : Thread) → is_picked s t ≡ true → IsPicked granted protocol iterations s t
  is_picked-IsPicked s t h =
      let (c, a, b, d, e) = and_all _ _ _ _ _ h in
      record {
        runs = c;
        highest = elim [
          | starter ↦ beats-le s t starter a
          | low ↦ beats-le s t low b
          | medium ↦ beats-le s t medium d
          | high ↦ beats-le s t high e
        ];
      }

  abbrev is_idle : System → Bool
  is_idle s =
      not (can_run granted iterations s starter)
      && not (can_run granted iterations s low)
      && not (can_run granted iterations s medium)
      && not (can_run granted iterations s high)
      && true

  is_idle-nobody :
      (s : System) → is_idle s ≡ true → (t : Thread) → can_run granted iterations s t ≡ false
  is_idle-nobody s h =
      let (a, b, d, e, _) = and_all _ _ _ _ _ h in
      elim [
        | starter ↦ not-true _ a
        | low ↦ not-true _ b
        | medium ↦ not-true _ d
        | high ↦ not-true _ e
      ]

  unfoldable pub wake : Thread → System → System
  wake t s = or_stay s (wake_up t s)

  -- The time that a step of each thread takes, and the time to stand still.
  module _ (lasts : Thread → ℕ) (pause : ℕ) where
    unfoldable pub run : Thread → System → System
    run t s =
        if is_picked s t then or_stay s (after (lasts t) (execute granted iterations t s)) else s

    unfoldable pub idle : System → System
    idle s = if is_idle s then record s { clock = s.clock + pause } else s

    unfoldable pub round : System → System
    unfolding wake run idle
    round s = idle (
        run starter
          (run low (run medium (run high (wake starter (wake low (wake medium (wake high s))))))))

    unfoldable pub rounds : ℕ → System → System
    unfolding round
    rounds zero s = s
    rounds (suc n) s = rounds n (round s)

    module _ (cost : ℕ) (cheap : (t : Thread) → lasts t ≤ cost) {from : System} where
      wake-Reach :
          (t : Thread) (s : System)
          → Reach granted protocol iterations cost from s
          → Reach granted protocol iterations cost from (wake t s)
      unfolding wake
      wake-Reach t s r = elim (Option-cases (wake_up t s)) [
        | inl e ↦ rw e r
        | inr (u, e) ↦ rw e (wakes r t e)
      ]

      run-Reach :
          (t : Thread) (s : System)
          → Reach granted protocol iterations cost from s
          → Reach granted protocol iterations cost from (run t s)
      unfolding run
      run-Reach t s r = elim (Bool-cases (is_picked s t)) [
        | inr no_pick ↦ rw no_pick r
        | inl pick ↦ elim (Option-cases (execute granted iterations t s)) [
          | inl e ↦ rw (pick, e) r
          | inr (u, e) ↦ rw (pick, e) (step r t (lasts t) (cheap t) (is_picked-IsPicked s t pick) e)
        ]
      ]

      idle-Reach :
          (s : System)
          → Reach granted protocol iterations cost from s
          → Reach granted protocol iterations cost from (idle s)
      unfolding idle
      idle-Reach s r = elim (Bool-cases (is_idle s)) [
        | inl h ↦ rw h (idles r pause (is_idle-nobody s h))
        | inr h ↦ rw h r
      ]

      -- What the simulation reaches is reachable.
      pub rounds-Reach :
          (n : ℕ) (s : System)
          → Reach granted protocol iterations cost from s
          → Reach granted protocol iterations cost from (rounds n s)
      unfolding rounds
      rounds-Reach zero s r = r
      rounds-Reach (suc n) s r = rounds-Reach n (round s) (
          idle-Reach _ (
            run-Reach starter _ (
              run-Reach low _ (
                run-Reach medium _ (
                  run-Reach high _ (
                    wake-Reach starter _
                      (wake-Reach low _ (wake-Reach medium _ (wake-Reach high s r)))))))))
