-- ===== src/FalseSharing/Memory/Words.antt =====
-- The words of case 05 in bytes: what a store leaves of the word that it writes, and of the others.
use systems_postmortems.Prelude.{
  ℕ, zero, suc, ◌+◌, ◌/◌, ◌%◌, ◌^◌, ◌≤◌, ◌<◌, ◌≡◌, ◌⊎◌, inl, inr, refl, ◌∙◌, arith,
}
use systems_postmortems.Threads.Table.{store}
use systems_postmortems.FalseSharing.Memory.{Memory, load_bytes, store_bytes, load_word, store_word}

pub store_bytes-other :
    (n : ℕ) (m : Memory) (a v b : ℕ) → (b < a) ⊎ (a + n ≤ b) → store_bytes n m a v b ≡ m b
unfolding store_bytes
store_bytes-other zero m a v b h = refl
store_bytes-other (suc n) m a v b (inl lt) =
    store_bytes-other n (store m a (v % 256)) (a + 1) (v / 256) b (inl (omega arith)) ∙ ground arith
store_bytes-other (suc n) m a v b (inr le) =
    store_bytes-other n (store m a (v % 256)) (a + 1) (v / 256) b (inr (omega arith)) ∙ ground arith

load_bytes-same :
    (n : ℕ) (m : Memory) (a v : ℕ) → v < 256 ^ n → load_bytes n (store_bytes n m a v) a ≡ v
unfolding load_bytes store_bytes
load_bytes-same zero m a v lt = ground arith
load_bytes-same (suc n) m a v lt =
    let rest : Memory = store m a (v % 256) in
    let low : store_bytes n rest (a + 1) (v / 256) a ≡ v % 256 =
      store_bytes-other n rest (a + 1) (v / 256) a (inl (omega arith)) ∙ ground arith in
    let high : load_bytes n (store_bytes n rest (a + 1) (v / 256)) (a + 1) ≡ v / 256 =
      load_bytes-same n rest (a + 1) (v / 256) (ground arith) in
    omega (arith, low, high)

load_bytes-other :
    (k n : ℕ) (m : Memory) (a v b : ℕ)
    → (b + k ≤ a) ⊎ (a + n ≤ b)
    → load_bytes k (store_bytes n m a v) b ≡ load_bytes k m b
unfolding load_bytes
load_bytes-other zero n m a v b h = refl
load_bytes-other (suc k) n m a v b (inl le) = omega (
  arith,
  store_bytes-other n m a v b (inl (omega arith)),
  load_bytes-other k n m a v (b + 1) (inl (omega arith)),
)
load_bytes-other (suc k) n m a v b (inr le) = omega (
  arith,
  store_bytes-other n m a v b (inr le),
  load_bytes-other k n m a v (b + 1) (inr (omega arith)),
)

-- Two words that do not overlap.
abbrev pub Apart : ℕ → ℕ → Type 0
Apart a b = (b + 8 ≤ a) ⊎ (a + 8 ≤ b)

pub load_word-same : (m : Memory) (a v : ℕ) → v < 2 ^ 64 → load_word (store_word m a v) a ≡ v
load_word-same m a v lt = load_bytes-same 8 m a v lt

pub load_word-other :
    (m : Memory) (a v b : ℕ) → Apart a b → load_word (store_word m a v) b ≡ load_word m b
load_word-other m a v b apart = load_bytes-other 8 8 m a v b apart
