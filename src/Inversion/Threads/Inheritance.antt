-- ===== src/Inversion/Threads/Inheritance.antt =====
-- With priority inheritance the control loop never waits longer than one critical section takes.
use native.Mathlib.Nat.{add-mul}
use systems_postmortems.Prelude.{ℕ, ◌+◌, ◌*◌, ◌≤◌, ◌≡◌, some, Bool, true, arith, subst}
use systems_postmortems.Prelude.Int.{pos_part}
use systems_postmortems.Inversion.Threads.{Thread, HogPc, execute, initial, System}
use systems_postmortems.Inversion.Threads.Scheduler.{inherit, Reach}
use systems_postmortems.Inversion.Threads.Budget.{IsReserve, low-IsTimely}
use systems_postmortems.Inversion.Threads.Budget.Kept.{Holds, worst-le-budget}
use systems_postmortems.Inversion.Threads.Picking.{picked-low}

-- The middle thread takes nothing.
abbrev nothing : HogPc → ℕ → ℕ
nothing m clock = 0

nothing-IsReserve : (cost : ℕ) → IsReserve cost 0 0 nothing
nothing-IsReserve cost = record {
  grows = λ m clock time. omega arith;
  lasts = λ m clock time le. omega arith;
  starts = λ clock. omega arith;
  wakes = λ wake clock le. omega arith;
  tests = λ clock. omega arith;
  moves = λ granted iterations s u time e le fits. omega arith;
}

module _ (granted : Thread → Bool) (iterations : ℕ) (all : (t : Thread) → granted t ≡ true)
    (cost : ℕ) where
  inherit-Holds : Holds granted iterations all cost 1 0 0 (nothing-IsReserve cost) inherit
  unfolding execute
  inherit-Holds t s u i asked time q inside le x p e w =
      let mine = picked-low granted iterations all i asked x q inside p in
      low-IsTimely iterations cost 1 0 0 nothing (nothing-IsReserve cost) granted s u i asked time q
        inside le (subst (λ r. execute granted iterations r s ≡ some u) mine e) w

  -- With inheritance and all three requests granted, in every reachable state of a run in which no
  -- step takes more than `cost`, g_worst_block_us in nanoseconds is at most the time of `iterations`
  -- + 4 steps, however long the bursts of the middle thread are.
  pub worst_bounded :
      {clock sink : ℕ} {s : System}
      → Reach granted inherit iterations cost (initial clock sink) s
      → 1000 * pos_part s.worst ≤ (iterations + 4) * cost
  worst_bounded r =
      let within =
        worst-le-budget granted iterations all cost 1 0 0 (nothing-IsReserve cost) inherit-Holds
          (omega arith) r in
      omega (arith, within, add-mul iterations 2 cost, add-mul iterations 4 cost)
