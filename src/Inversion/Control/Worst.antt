-- ===== src/Inversion/Control/Worst.antt =====
-- What `highPriorityControl` leaves in g_worst_block_us.
use systems_postmortems.Prelude.{
  ℕ, zero, suc, ◌+◌, ◌≤◌, ◌<◌, ◌≡◌, refl, ◌⊎◌, inl, inr, ◌∙◌, arith, ℕ_discrete,
}
use systems_postmortems.Prelude.Int.{ℤ, ◌≤ℤ◌}
use systems_postmortems.Inversion.Control.{cycles, one_cycle, control_loop, control}

-- `r` is the largest of `worst` and the waits of the `n` cycles from `i`.
record IsWorst (n i : ℕ) (waits : ℕ → ℤ) (worst r : ℤ) : Type 0 where
  start : worst ≤ℤ r
  bound : (k : ℕ) → i ≤ k → k < i + n → waits k ≤ℤ r
  reached : (r ≡ worst) ⊎ ((k : ℕ) × (i ≤ k) × (k < i + n) × (r ≡ waits k))

one_cycle_max :
    (w worst : ℤ)
    → (worst ≤ℤ one_cycle w worst)
      × (w ≤ℤ one_cycle w worst)
      × ((one_cycle w worst ≡ worst) ⊎ (one_cycle w worst ≡ w))
unfolding one_cycle
one_cycle_max w worst = (ground arith, ground arith, ground arith)

control_loop-IsWorst :
    (n i : ℕ) (waits : ℕ → ℤ) (worst : ℤ) → IsWorst n i waits worst (control_loop n i waits worst)
unfolding control_loop
control_loop-IsWorst zero i waits worst = record {
  start = omega arith;
  bound = λ k le lt. absurd (omega arith);
  reached = inl refl;
}
control_loop-IsWorst (suc n) i waits worst =
    let m = one_cycle_max (waits i) worst in
    let r = control_loop-IsWorst n (i + 1) waits (one_cycle (waits i) worst) in
    record {
      start = omega (arith, m.0, r.start);
      bound = λ k le lt. elim (ℕ_discrete i k) [
        | yes same ↦ rw (← same) (omega (arith, m.1, r.start))
        | no ne ↦ r.bound k (omega arith) (omega arith)
      ];
      reached = elim r.reached [
        | inr (k, le, lt, e) ↦ inr (k, omega arith, omega arith, e)
        | inl e ↦ elim m.2 [
          | inl old ↦ inl (e ∙ old)
          | inr new ↦ inr (i, omega arith, omega arith, e ∙ new)
        ]
      ];
    }

-- After the 600 cycles g_worst_block_us is at least its first value and every wait, and it is its
-- first value or one of the waits.
pub control-max :
    (waits : ℕ → ℤ) (worst : ℤ)
    → (worst ≤ℤ control waits worst)
      × ((k : ℕ) → k < cycles → waits k ≤ℤ control waits worst)
      × ((control waits worst ≡ worst) ⊎ ((k : ℕ) × (k < cycles) × (control waits worst ≡ waits k)))
unfolding control
control-max waits worst =
    let r = control_loop-IsWorst cycles 0 waits worst in
    (
      r.start,
      λ k lt. r.bound k (omega arith) (omega arith),
      elim r.reached [ inl e ↦ inl e | inr (k, le, lt, e) ↦ inr (k, omega arith, e) ],
    )
