-- ===== src/FalseSharing/Same.antt =====
-- The two programs of case 05 run the same, whatever the layout.
use systems_postmortems.Prelude.{ℕ, ◌+◌, ◌<◌, ◌≢◌, dec_lt, inl, inr, ◌≤◌, ◌≡◌, ap, sym, arith}
use systems_postmortems.Threads.{System, Reach}
use systems_postmortems.FalseSharing.Memory.{Memory, load_word, program_at}
use systems_postmortems.FalseSharing.Memory.Words.{Apart}
use systems_postmortems.FalseSharing.Memory.View.{counters, view, view-Reach, lift-Reach}
use systems_postmortems.FalseSharing.Broken
use systems_postmortems.FalseSharing.Fixed

-- The same progress, and the same four counters, at their addresses.
pub record SameRun (at at' : ℕ → ℕ) (s t : System Memory ℕ) : Type 0 where
  pub spawned : s.spawned ≡ t.spawned
  pub joined : s.joined ≡ t.joined
  pub pcs : s.pcs ≡ t.pcs
  pub values : (i : ℕ) → i ≤ 3 → load_word s.shared (at i) ≡ load_word t.shared (at' i)

order-Apart : {a b : ℕ} (i j : ℕ) → i ≢ j → (j < i → b + 8 ≤ a) → (i < j → a + 8 ≤ b) → Apart a b
order-Apart i j ne down up = elim (dec_lt i j) [
  | yes lt ↦ inr (up lt)
  | no ge ↦ inl (down (ground (arith, ge, ne)))
]

pub broken-Apart : (base i j : ℕ) → i ≢ j → Apart (Broken.address base i) (Broken.address base j)
unfolding Broken.address
broken-Apart base i j e = order-Apart i j e (λ lt. omega arith) (λ lt. omega arith)

pub fixed-Apart : (base i j : ℕ) → i ≢ j → Apart (Fixed.address base i) (Fixed.address base j)
unfolding Fixed.address
fixed-Apart base i j e = order-Apart i j e (λ lt. omega arith) (λ lt. omega arith)

view-SameRun :
    (at at' : ℕ → ℕ) (apart : (i j : ℕ) → i ≢ j → Apart (at i) (at j))
    (apart' : (i j : ℕ) → i ≢ j → Apart (at' i) (at' j)) {s t : System Memory ℕ}
    → view at apart s ≡ view at' apart' t
    → SameRun at at' s t
view-SameRun at at' apart apart' {s} {t} q = record {
  spawned = ap (λ x. x.spawned) q;
  joined = ap (λ x. x.joined) q;
  pcs = ap (λ x. x.pcs) q;
  values = λ i le.
      let same : counters at apart s.shared i ≡ counters at' apart' t.shared i =
        ap (λ x. x.shared i) q in
      ground (arith, same, le);
}

-- For up to four threads, any number of iterations, any two places and contents of memory: a state
-- that one program reaches in `k` steps of an interleaving, the other reaches in as many, with the same
-- threads at the same places and the same values in the four counters.
pub same_runs :
    (base base' threads per : ℕ) (m m' : Memory)
    → threads ≤ 4
    → {k : ℕ}
    → ((s : System Memory ℕ)
        → Reach (Broken.program base threads per) (Broken.reset base m) k s
        → (t : System Memory ℕ) × Reach (Fixed.program base' threads per) (Fixed.reset base' m') k t
          × SameRun (Broken.address base) (Fixed.address base') s t)
      × ((t : System Memory ℕ)
          → Reach (Fixed.program base' threads per) (Fixed.reset base' m') k t
          → (s : System Memory ℕ) × Reach
              (Broken.program base threads per)
              (Broken.reset base m)
              k
              s
            × SameRun (Broken.address base) (Fixed.address base') s t)
unfolding Broken.program Broken.reset Fixed.program Fixed.reset program_at
same_runs base base' threads per m m' few = (
  λ s r.
      let (t, r', q) =
        lift-Reach (Fixed.address base') (fixed-Apart base') threads per few m'
          (view-Reach (Broken.address base) (broken-Apart base) threads per few m r) in
      (
        t,
        r',
        view-SameRun (Broken.address base) (Fixed.address base') (broken-Apart base)
            (fixed-Apart base') (sym q),
      ),
  λ t r.
      let (s, r', q) =
        lift-Reach (Broken.address base) (broken-Apart base) threads per few m
          (view-Reach (Fixed.address base') (fixed-Apart base') threads per few m' r) in
      (
        s,
        r',
        view-SameRun (Broken.address base) (Fixed.address base') (broken-Apart base)
            (fixed-Apart base') q,
      ),
)
