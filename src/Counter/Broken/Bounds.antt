-- ===== src/Counter/Broken/Bounds.antt =====
-- The invariant of the plain counter of case 01, under every interleaving.
use Prim.Native.Nat.{min}
use systems_postmortems.Prelude.{ℕ, ◌*◌, ◌^◌, ◌≤◌, ◌<◌, ◌≡◌, refl, some, arith}
use systems_postmortems.Threads.{System, Reach}
use systems_postmortems.Threads.Table.{
  store, sum_over, sum_over-store, sum_over-const, sum_over_mono,
}
use systems_postmortems.Threads.Invariant.{Reach-inv}
use systems_postmortems.Counter.Broken.{Metrics, Pc, head, loaded, worker, program, metrics}

-- The increments that a worker has stored.
abbrev pub rounds : Pc → ℕ
rounds (head i) = i
rounds (loaded i value) = i

-- What a worker's locals say, when `total` increments have been stored.
abbrev pub IsFresh : ℕ → ℕ → Pc → Type 0
IsFresh per total (head i) = i ≤ per
IsFresh per total (loaded i value) = (i < per) × (value ≤ total) × (min i 1 ≤ value)

module _ (count per : ℕ) (small : count * per < 2 ^ 64) where
  abbrev pub stored : (ℕ → Pc) → ℕ
  stored f = sum_over count (λ i. rounds (f i))

  pub record Bounds (m : Metrics) (f : ℕ → Pc) : Type 0 where
    pub upper : m.requests_handled ≤ stored f
    pub lower : (i : ℕ) → i < count → min (rounds (f i)) 1 ≤ m.requests_handled
    pub fresh : (i : ℕ) → i < count → IsFresh per (stored f) (f i)

  pub rounds-le : (f : ℕ → Pc) (i total : ℕ) → IsFresh per total (f i) → rounds (f i) ≤ per
  rounds-le f i total h = ground arith

  pub stored-le : (f : ℕ → Pc) → ((i : ℕ) → i < count → rounds (f i) ≤ per) → stored f ≤ count * per
  stored-le f h = omega (
    arith,
    sum_over_mono count (λ i. rounds (f i)) (λ _. per) h,
    sum_over-const count per (λ _. per) (λ i lt. refl),
  )

  -- While one worker has a round to go, not all increments are stored.
  pub stored-lt :
      {m : Metrics} {f : ℕ → Pc} (i : ℕ)
      → Bounds m f
      → i < count
      → rounds (f i) < per
      → stored f < count * per
  stored-lt {f} i b lt h = omega (
    arith,
    sum_over-store rounds count f i (head per) lt,
    stored-le (store f i (head per))
        (λ j jlt. ground (arith, rounds-le f j (stored f) (b.fresh j jlt))),
  )

  pub per-small : (i : ℕ) → i < count → per < 2 ^ 64
  per-small i lt = grind arith

  pub Bounds-worker :
      (i : ℕ) (m m' : Metrics) (f : ℕ → Pc) (w : Pc)
      → i < count
      → worker per m (f i) ≡ some (m', w)
      → Bounds m f
      → Bounds m' (store f i w)
  unfolding worker
  Bounds-worker i m m' f w lt e b = record {
    upper = ground (
      arith,
      b.upper,
      b.fresh i lt,
      stored-lt i b lt,
      per-small i lt,
      sum_over-store rounds count f i w lt,
    );
    lower = λ k klt.
        ground (arith, b.lower k klt, b.lower i lt, b.fresh i lt, stored-lt i b lt, per-small i lt);
    fresh = λ k klt. ground (
      arith,
      b.upper,
      b.lower i lt,
      b.fresh k klt,
      b.fresh i lt,
      per-small i lt,
      sum_over-store rounds count f i w lt,
    );
  }

  pub Bounds-start : Bounds metrics (λ _. head 0)
  Bounds-start = record {
    upper = omega arith;
    lower = λ i lt. omega arith;
    fresh = λ i lt. omega arith;
  }

  pub Bounds-Reach :
      {k : ℕ} {s : System Metrics Pc}
      → Reach (program count per) metrics k s
      → Bounds s.shared s.pcs
  unfolding program
  Bounds-Reach r = Reach-inv (program count per) Bounds metrics Bounds-start Bounds-worker r
