-- ===== src/FalseSharing/Coherence.antt =====
-- The comment at the counters of case 05, as a cost: an increment takes its line away from every
-- other core, so a worker misses when it is not the last one to have written its line.
use systems_postmortems.Prelude.{
  ℕ, ◌+◌, ◌*◌, ◌%◌, ◌≤◌, ◌<◌, ◌≡◌, ◌≢◌, refl, Option, none, some, List, [], ◌∷◌, ◌==◌,
  if◌then◌else◌, arith,
}
use systems_postmortems.Prelude.Lists.{length}
use systems_postmortems.Threads.Table.{
  store, sum_over, sum_over-store, sum_over-const, sum_over_mono,
}
use systems_postmortems.FalseSharing.Broken.{counter_size}
use systems_postmortems.FalseSharing.Broken
use systems_postmortems.FalseSharing.Fixed.{cache_line}
use systems_postmortems.FalseSharing.Fixed
use systems_postmortems.FalseSharing.Lines.{line, padded_lines}

-- The last worker to have written each line.
abbrev pub Owners : Type 0
Owners = ℕ → Option ℕ

abbrev pub lost : Option ℕ → ℕ → ℕ
lost none i = 1
lost (some j) i = if j == i then 0 else 1

-- The misses of a run, given by the workers in the order of their increments; worker `i` writes line
-- `place i`.
unfoldable pub misses : (ℕ → ℕ) → List ℕ → Owners → ℕ
misses place [] owners = 0
misses place (i ∷ is) owners =
    let rest = misses place is (store owners (place i) (some i)) in lost (owners (place i)) i + rest

pub data IsRun (n : ℕ) : List ℕ → Type 0 where
  ends : IsRun n []
  turn : {is : List ℕ} → (i : ℕ) → i < n → IsRun n is → IsRun n (i ∷ is)

module _ (place : ℕ → ℕ) (apart : (i j : ℕ) → place i ≡ place j → i ≡ j) where
  abbrev cold : Owners → ℕ → ℕ
  cold owners j = lost (owners (place j)) j

  warm :
      (owners : Owners) (i j : ℕ)
      → cold (store owners (place i) (some i)) j ≡ store (cold owners) i 0 j
  warm owners i j = ground (arith, apart i j)

  -- Workers on lines of their own miss at most once each.
  misses-apart :
      (n : ℕ) (is : List ℕ) (owners : Owners)
      → IsRun n is
      → misses place is owners ≤ sum_over n (cold owners)
  unfolding misses
  misses-apart n [] owners ends = omega arith
  misses-apart n (i ∷ is) owners (turn _ lt r) =
      let then_on = store owners (place i) (some i) in
      omega (
        arith,
        misses-apart n is then_on r,
        sum_over_mono n (cold then_on) (store (cold owners) i 0)
            (λ j h. omega (arith, warm owners i j)),
        sum_over-store (λ x. x) n (cold owners) i 0 lt,
      )

-- With the padded counters, aligned to a line, each of up to `n` workers misses at most once in a whole
-- run of `n` workers from cold caches, however their increments interleave.
pub padded_misses :
    (base n : ℕ) (is : List ℕ)
    → base % cache_line ≡ 0
    → IsRun n is
    → misses (λ i. line (Fixed.address base i)) is (λ _. none) ≤ n
padded_misses base n is aligned r = omega (
  arith,
  misses-apart (λ i. line (Fixed.address base i))
      (λ i j. (padded_lines base i j 0 aligned (omega arith)).1.0) n is (λ _. none) r,
  sum_over-const n 1 (λ _. 1) (λ i lt. refl),
)

-- A run of the workers below `n` in which no one increments twice in a row.
pub data IsAlternating (n : ℕ) : List ℕ → Type 0 where
  ends : IsAlternating n []
  alone : (i : ℕ) → i < n → IsAlternating n (i ∷ [])
  swaps :
      {is : List ℕ} (i j : ℕ)
      → i < n
      → i ≢ j
      → IsAlternating n (j ∷ is)
      → IsAlternating n (i ∷ j ∷ is)

module _ (place : ℕ → ℕ) (n shared : ℕ) (together : (i : ℕ) → i < n → place i ≡ shared) where
  Alternates : List ℕ → Owners → Type 0
  Alternates [] owners = Unit
  Alternates (i ∷ is) owners = lost (owners shared) i ≡ 1

  cold-Alternates : (is : List ℕ) → Alternates is (λ _. none)
  unfolding Alternates
  cold-Alternates [] = tt
  cold-Alternates (i ∷ is) = refl

  misses-together :
      (is : List ℕ) (owners : Owners)
      → IsAlternating n is
      → Alternates is owners
      → misses place is owners ≡ length is
  unfolding misses length Alternates
  misses-together _ owners ends h = refl
  misses-together _ owners (alone i lt) h = rw (together i lt) (omega (arith, h))
  misses-together _ owners (swaps {is} i j lt ne r) h =
      let later =
        misses-together (j ∷ is) (store owners (place i) (some i)) r
          (ground (arith, together i lt, ne)) in
      ground (arith, h, later, together i lt)

-- With the adjacent counters of four workers, aligned to 8 and no more than 32 bytes into a line,
-- every increment misses in a run from cold caches in which no worker increments twice in a row.
pub adjacent_misses :
    (base : ℕ) (is : List ℕ)
    → base % counter_size ≡ 0
    → base % cache_line ≤ 32
    → IsAlternating 4 is
    → misses (λ i. line (Broken.address base i)) is (λ _. none) ≡ length is
unfolding Broken.address
adjacent_misses base is aligned early r =
    misses-together (λ i. line (base + 8 * i)) 4 (line base) (λ i lt. omega arith) is (λ _. none) r
      (cold-Alternates (λ i. line (base + 8 * i)) 4 (line base) (λ i lt. omega arith) is)
