-- ===== src/FalseSharing/Exact.antt =====
-- What the threads of case 05 leave in memory, in either layout.
use mathlib.Core.Path.{fun_ext}
use systems_postmortems.Prelude.{
  ℕ, ◌+◌, ◌%◌, ◌⊎◌, inl, inr, ap, ◌∙◌, Bool-cases, ltb, ◌^◌, ◌≤◌, ◌<◌, ◌≡◌, ◌≢◌, sym, true, some,
  arith, subst,
}
use systems_postmortems.Threads.{System, Reach, returned}
use systems_postmortems.Threads.Table.{store}
use systems_postmortems.Threads.Invariant.{Reach-inv}
use systems_postmortems.FalseSharing.Memory.{
  Memory, load_word, store_word, worker_at, reset_at, program_at,
}
use systems_postmortems.FalseSharing.Memory.Words.{Apart, store_bytes-other}
use mathlib.Core.Option.{some-injective}
use systems_postmortems.FalseSharing.Memory.View.{view, view-Reach}
use systems_postmortems.FalseSharing.Run.{program, reset}
use systems_postmortems.FalseSharing.Run.Exact.{run-exact}
use systems_postmortems.FalseSharing.Same.{broken-Apart, fixed-Apart}
use systems_postmortems.FalseSharing.Broken
use systems_postmortems.FalseSharing.Fixed

-- The counters of the threads are `per`, the other ones are 0, and no byte outside the four counters has
-- changed.
pub record IsExact (at : ℕ → ℕ) (threads per : ℕ) (before after : Memory) : Type 0 where
  pub counted : (i : ℕ) → i < threads → load_word after (at i) ≡ per
  pub idle : (i : ℕ) → threads ≤ i → i < 4 → load_word after (at i) ≡ 0
  pub untouched : (a : ℕ) → ((i : ℕ) → i < 4 → (a < at i) ⊎ (at i + 8 ≤ a)) → after a ≡ before a

zeros : reset 4 0 (λ i. 0) ≡ (λ i. 0)
unfolding reset
zeros = fun_ext (λ i. ground arith)

module _ (at : ℕ → ℕ) (apart : (i j : ℕ) → i ≢ j → Apart (at i) (at j)) (threads per : ℕ)
    (few : threads ≤ 4) (before : Memory) where
  IsUntouched : Memory → (ℕ → ℕ) → Type 0
  IsUntouched m pcs = (a : ℕ) → ((i : ℕ) → i < 4 → (a < at i) ⊎ (at i + 8 ≤ a)) → m a ≡ before a

  reset-IsUntouched : (pcs : ℕ → ℕ) → IsUntouched (reset_at at 4 0 before) pcs
  unfolding IsUntouched reset_at
  reset-IsUntouched pcs a out =
      store_bytes-other 8 _ (at 3) 0 a (out 3 (omega arith))
      ∙ store_bytes-other 8 _ (at 2) 0 a (out 2 (omega arith))
      ∙ store_bytes-other 8 _ (at 1) 0 a (out 1 (omega arith))
      ∙ store_bytes-other 8 before (at 0) 0 a (out 0 (omega arith))

  worker-IsUntouched :
      (i : ℕ) (m m' : Memory) (pcs : ℕ → ℕ) (j : ℕ)
      → i < threads
      → worker_at at per i m (pcs i) ≡ some (m', j)
      → IsUntouched m pcs
      → IsUntouched m' (store pcs i j)
  unfolding IsUntouched worker_at
  worker-IsUntouched i m m' pcs j lt e h a out = elim (Bool-cases (ltb (pcs i) per)) [
    | inr ends ↦ absurd (ground (arith, ends, e))
    | inl more ↦
        let added : ℕ = (load_word m (at i) + 1) % 2 ^ 64 in
        let made : store_word m (at i) added ≡ m' =
          ap (λ o. o.0) (some-injective (store_word m (at i) added, _) (m', j) (rw more at e)) in
        sym (ap (λ f. f a) made)
        ∙ store_bytes-other 8 m (at i) added a (out i (omega (arith, few, lt)))
        ∙ h a out
  ]

  program_at-IsExact :
      {k : ℕ} {s : System Memory ℕ}
      → per < 2 ^ 64
      → Reach (program_at at threads per) (reset_at at 4 0 before) k s
      → returned (program_at at threads per) s ≡ true
      → IsExact at threads per before s.shared
  unfolding program_at program IsUntouched
  program_at-IsExact {k} {s} small r done =
      let seen : Reach (program threads per) (reset 4 0 (λ i. 0)) k (view at apart s) =
        subst (λ c. Reach (program threads per) c k (view at apart s)) (sym zeros)
          (view-Reach at apart threads per few before r) in
      let (own, idle) = run-exact threads per few small (λ i. 0) seen done in
      record {
        counted = λ i lt. ground (arith, own i lt, few, lt);
        idle = λ i ge lt. ground (arith, idle i ge lt, lt);
        untouched =
            Reach-inv (program_at at threads per) IsUntouched (reset_at at 4 0 before)
              (reset-IsUntouched (λ i. 0)) worker-IsUntouched r;
      }

-- For up to four threads, fewer than 2 ^ 64 iterations, any place and contents of memory, and every
-- interleaving, in both programs: whenever the joins return, the counter of each thread is the number
-- of iterations at its address, the other counters are 0, and every byte outside the four counters is as it
-- was.
pub program-IsExact :
    (base threads per : ℕ) (before : Memory)
    → threads ≤ 4
    → per < 2 ^ 64
    → ((k : ℕ) (s : System Memory ℕ)
        → Reach (Broken.program base threads per) (Broken.reset base before) k s
        → returned (Broken.program base threads per) s ≡ true
        → IsExact (Broken.address base) threads per before s.shared)
      × ((k : ℕ) (s : System Memory ℕ)
          → Reach (Fixed.program base threads per) (Fixed.reset base before) k s
          → returned (Fixed.program base threads per) s ≡ true
          → IsExact (Fixed.address base) threads per before s.shared)
unfolding Broken.program Broken.reset Fixed.program Fixed.reset program_at
program-IsExact base threads per before few small = (
  λ k s r done.
      program_at-IsExact (Broken.address base) (broken-Apart base) threads per few before small r
        done,
  λ k s r done.
      program_at-IsExact (Fixed.address base) (fixed-Apart base) threads per few before small r
        done,
)
