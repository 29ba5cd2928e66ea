-- ===== src/FalseSharing/Memory.antt =====
-- The counters of case 05 in memory: the workers of `runWith` on words of eight bytes, the lowest byte
-- first. `place i` is the address of counter `i`.
pub mod Words
pub mod View
use systems_postmortems.Prelude.{
  ℕ, zero, suc, ◌+◌, ◌*◌, ◌/◌, ◌%◌, ◌^◌, Bool, not, Option, none, some, ltb, if◌then◌else◌,
}
use systems_postmortems.Threads.{Program}
use systems_postmortems.Threads.Table.{store}

-- The byte at each address.
abbrev pub Memory : Type 0
Memory = ℕ → ℕ

-- The word in the `n` bytes from an address on.
unfoldable pub load_bytes : (n : ℕ) → Memory → (address : ℕ) → ℕ
load_bytes zero m a = 0
load_bytes (suc n) m a = m a + 256 * load_bytes n m (a + 1)

unfoldable pub store_bytes : (n : ℕ) → Memory → (address value : ℕ) → Memory
store_bytes zero m a v = m
store_bytes (suc n) m a v = store_bytes n (store m a (v % 256)) (a + 1) (v / 256)

-- A std::uint64_t.
abbrev pub load_word : Memory → (address : ℕ) → ℕ
load_word m a = load_bytes 8 m a

abbrev pub store_word : Memory → (address value : ℕ) → Memory
store_word m a v = store_bytes 8 m a v

module _ (place : ℕ → ℕ) where
  -- One `fetch_add` and the loop's `++i`.
  unfoldable pub worker_at : ℕ → ℕ → Memory → ℕ → Option (Memory × ℕ)
  worker_at per index m i =
      if ltb i per
      then some
          (store_word m (place index) ((load_word m (place index) + 1) % 2 ^ 64), (i + 1) % 2 ^ 64)
      else none

  -- The stores of 0 before the clock starts: counters `i` to `i + n - 1`.
  unfoldable pub reset_at : ℕ → ℕ → Memory → Memory
  reset_at zero i m = m
  reset_at (suc n) i m = reset_at n (i + 1) (store_word m (place i) 0)

  -- From the first `emplace_back` to the last join, with `per` iterations.
  unfoldable pub program_at : ℕ → ℕ → Program Memory ℕ
  unfolding worker_at
  program_at threads per = record {
    count = threads;
    entry = λ _. 0;
    access = λ index m i. worker_at per index m i;
    finished = λ i. not (ltb i per);
  }
