-- ===== src/Inversion/Threads/Recorded.antt =====
-- The waits that a run of the threads of case 06 measures, and what they leave in g_worst_block_us.
pub mod Kept
use mathlib.Core.Option.{some-injective}
use systems_postmortems.Prelude.{
  ℕ, zero, suc, ◌+◌, ◌-◌, ◌/◌, ◌≤◌, ◌≡◌, refl, ap, sym, ◌∙◌, Bool, true, inl, inr, some, ltb, leb,
  arith, subst, Bool-cases,
}
use systems_postmortems.Prelude.Int.{ℤ, pos}
use systems_postmortems.Threads.Table.{store}
use systems_postmortems.Inversion.Control.{cycles, one_cycle, control_loop, control}
use systems_postmortems.Inversion.Threads.{
  Thread, starter, low, medium, high, ControlPc, System, is_free, when-some, high_step, execute,
  initial,
}
use systems_postmortems.Inversion.Threads.Scheduler.{Protocol, Reach, start, step, wakes, idles}
use systems_postmortems.Inversion.Threads.Waking.{
  Woken, Woken-wake_up, starter_woken, low_woken, medium_woken, high_woken,
}
use systems_postmortems.Inversion.Threads.Frames.{
  low_step-LowFrame, medium_step-MediumFrame, StarterFrame, starter_step-StarterFrame,
}
use systems_postmortems.Inversion.Threads.Joins.{Reach-IsCounted, IsCounted}

-- What a step of a thread adds to the waits: the measurement of the control loop, in its cycle.
unfoldable pub note : Thread → ControlPc → (clock : ℕ) → (ℕ → ℤ) → ℕ → ℤ
note high (ControlPc.measure i asked) clock waits = store waits i (pos ((clock - asked) / 1000))
note _ _ clock waits = waits

-- The measured waits of a run, by the cycle.
unfoldable pub waits_of :
    {granted : Thread → Bool} {protocol : Protocol} {iterations cost : ℕ} {s u : System}
    → Reach granted protocol iterations cost s u
    → ℕ
    → ℤ
unfolding note
waits_of start = λ i. pos 0
waits_of (step {s} r t time le p e) = note t s.high_at s.clock (waits_of r)
waits_of (wakes r t e) = waits_of r
waits_of (idles r time nobody) = waits_of r

-- How many cycles have measured.
abbrev pub done : ControlPc → ℕ
done ControlPc.unborn = 0
done ControlPc.entry = 0
done (ControlPc.test i) = i
done (ControlPc.acquire i asked) = i
done (ControlPc.measure i asked) = i
done (ControlPc.release i) = i + 1
done (ControlPc.doze i) = i + 1
done (ControlPc.asleep i wake) = i + 1
done ControlPc.ended = cycles

abbrev pub is_within : ControlPc → Bool
is_within (ControlPc.acquire i asked) = ltb i cycles
is_within (ControlPc.measure i asked) = ltb i cycles
is_within p = leb (done p) cycles

pub record IsRecorded (waits : ℕ → ℤ) (s : System) : Type 0 where
  pub within : is_within s.high_at ≡ true
  pub worst : s.worst ≡ control_loop (done s.high_at) 0 waits (pos 0)

control_loop-last :
    (n i : ℕ) (waits : ℕ → ℤ) (worst : ℤ)
    → control_loop (suc n) i waits worst ≡ one_cycle (waits (i + n)) (control_loop n i waits worst)
unfolding control_loop
control_loop-last zero i waits worst =
    let same : i ≡ i + 0 = omega arith in ap (λ (k : ℕ). one_cycle (waits k) worst) same
control_loop-last (suc n) i waits worst =
    let same : (i + 1) + n ≡ i + suc n = omega arith in
    let rest = control_loop n (i + 1) waits (one_cycle (waits i) worst) in
    control_loop-last n (i + 1) waits (one_cycle (waits i) worst)
    ∙ ap (λ (k : ℕ). one_cycle (waits k) rest) same

control_loop-store :
    (n i k : ℕ) (v : ℤ) (waits : ℕ → ℤ) (worst : ℤ)
    → i + n ≤ k
    → control_loop n i (store waits k v) worst ≡ control_loop n i waits worst
unfolding control_loop
control_loop-store zero i k v waits worst le = refl
control_loop-store (suc n) i k v waits worst le =
    let same : store waits k v i ≡ waits i = ground (arith, le) in
    control_loop-store n (i + 1) k v waits _ (omega (arith, le))
    ∙ ap (λ b. control_loop n (i + 1) waits (one_cycle b worst)) same

pub at_high :
    {p : ControlPc} (waits : ℕ → ℤ) (s : System)
    → s.high_at ≡ p
    → IsRecorded waits s
    → (is_within p ≡ true) × (s.worst ≡ control_loop (done p) 0 waits (pos 0))
at_high waits s q x = (
  subst (λ p. is_within p ≡ true) q x.within,
  subst (λ p. s.worst ≡ control_loop (done p) 0 waits (pos 0)) q x.worst,
)

pub measured :
    (i : ℕ) (w : ℤ) (waits : ℕ → ℤ)
    → one_cycle w (control_loop i 0 waits (pos 0))
      ≡ control_loop (i + 1) 0 (store waits i w) (pos 0)
measured i w waits =
    let next : suc i ≡ i + 1 = omega arith in
    let here : store waits i w (0 + i) ≡ w = ground arith in
    let before = control_loop-store i 0 i w waits (pos 0) (omega arith) in
    sym (
      sym (ap (λ (k : ℕ). control_loop k 0 (store waits i w) (pos 0)) next)
      ∙ control_loop-last i 0 (store waits i w) (pos 0)
      ∙ ap (λ b. one_cycle b (control_loop i 0 (store waits i w) (pos 0))) here
      ∙ ap (λ b. one_cycle w b) before)
