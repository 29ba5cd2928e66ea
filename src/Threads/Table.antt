-- ===== src/Threads/Table.antt =====
-- Tables with one entry for each thread, and sums over the first `n` threads.
use systems_postmortems.Prelude.{
  ℕ, zero, suc, ◌+◌, ◌*◌, ◌≤◌, ◌<◌, ◌≡◌, refl, ◌==◌, if◌then◌else◌, arith, dec_lt,
}

abbrev pub store {ℓ} : {A : Type ℓ} → (ℕ → A) → ℕ → A → ℕ → A
store f i a j = if i == j then a else f j

pub sum_over : ℕ → (ℕ → ℕ) → ℕ
sum_over zero g = 0
sum_over (suc n) g = g n + sum_over n g

module _ {ℓ} {A : Type ℓ} (w : A → ℕ) where
  sum_over-store_out :
      (n : ℕ) (f : ℕ → A) (i : ℕ) (a : A)
      → n ≤ i
      → sum_over n (λ j. w (store f i a j)) ≡ sum_over n (λ j. w (f j))
  unfolding sum_over
  sum_over-store_out zero f i a h = refl
  sum_over-store_out (suc n) f i a h = ground (arith, sum_over-store_out n f i a)

  pub sum_over-store :
      (n : ℕ) (f : ℕ → A) (i : ℕ) (a : A)
      → i < n
      → sum_over n (λ j. w (store f i a j)) + w (f i) ≡ sum_over n (λ j. w (f j)) + w a
  unfolding sum_over
  sum_over-store zero f i a h = absurd (omega arith)
  sum_over-store (suc n) f i a h = elim (dec_lt i n) [
    | yes inside ↦ ground (arith, sum_over-store n f i a inside)
    | no last ↦ ground (arith, sum_over-store_out n f i a)
  ]

-- A sum whose terms are all `c`.
pub sum_over-const : (n c : ℕ) (g : ℕ → ℕ) → ((i : ℕ) → i < n → g i ≡ c) → sum_over n g ≡ n * c
unfolding sum_over
sum_over-const zero c g h = omega arith
sum_over-const (suc n) c g h =
    omega (arith, h n (omega arith), sum_over-const n c g (λ i lt. h i (omega arith)))

pub sum_over_mono :
    (n : ℕ) (g h : ℕ → ℕ) → ((i : ℕ) → i < n → g i ≤ h i) → sum_over n g ≤ sum_over n h
unfolding sum_over
sum_over_mono zero g h le = omega arith
sum_over_mono (suc n) g h le =
    omega (arith, le n (omega arith), sum_over_mono n g h (λ i lt. le i (omega arith)))

pub le-sum_over : (n : ℕ) (g : ℕ → ℕ) (i : ℕ) → i < n → g i ≤ sum_over n g
unfolding sum_over
le-sum_over zero g i h = absurd (omega arith)
le-sum_over (suc n) g i h = elim (dec_lt i n) [
  | yes inside ↦ omega (arith, le-sum_over n g i inside)
  | no last ↦ ground arith
]
