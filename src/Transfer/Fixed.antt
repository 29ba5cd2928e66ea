-- ===== src/Transfer/Fixed.antt =====
-- cases/02-lock-order-inversion/fixed.cpp: `transfer` with std::scoped_lock, whose algorithm is a
-- parameter. The load and the store of `-=` and `+=` on a balance, which is not atomic, are two
-- steps. Accounts, threads and arguments are those of broken.cpp.
pub mod Contract
pub mod Exclusion
pub mod Progress
pub mod Steps
pub mod Finish
mod Tests
use systems_postmortems.Prelude.{
  ℕ, Bool, true, false, ◌≡◌, Option, none, some, List, [], ◌∷◌, Option-cases, inl, inr, subst,
  arith,
}
use systems_postmortems.Prelude.Int.{ℤ, pos, ◌+ℤ◌, ◌-ℤ◌}
use systems_postmortems.Transfer.Broken.{
  Name, alice, bob, Thread, one, two, Turn, first, second, Account, from, to, amount, name,
}

-- What the algorithm does next, with where it goes on: lock() on one of its two mutexes, try_lock()
-- with an answer for either outcome, unlock(), or return.
pub data Action (L : Type 0) : Type 0 where
  lock : Turn → L → Action L
  try_lock : Turn → (taken busy : L) → Action L
  unlock : Turn → L → Action L
  done : Action L

-- The algorithm of the constructor of std::scoped_lock for two mutexes, and the order in which its
-- destructor unlocks them.
pub record Algorithm : Type 1 where
  pub Local : Type 0
  pub enter : Local
  pub next : Local → Action Local
  pub released_first : Turn

abbrev pub other : Turn → Turn
other first = second
other second = first

module _ (alg : Algorithm) where
  open alg use {Local, enter, next, released_first}

  -- What a thread executes next.
  pub data Pc : Type 0 where
    begin : Pc  -- the lambda of `main`
    acquire : Local → Pc  -- the constructor of scoped_lock
    doze : Pc  -- the sleep of `transfer`
    debit credit : Pc  -- the loads of `-=` and `+=`
    store_debit store_credit : (value : ℤ) → Pc  -- their stores, with what was loaded
    unlock_first unlock_second : Pc  -- the destructor of scoped_lock
    ended : Pc

  pub record System : Type 0 where
    pub alices : Account
    pub bobs : Account
    pub ones : Pc
    pub twos : Pc

  abbrev pub account : System → Name → Account
  account s alice = s.alices
  account s bob = s.bobs

  abbrev with_account : System → Name → Account → System
  with_account s alice a = record s { alices = a }
  with_account s bob a = record s { bobs = a }

  abbrev goto : Thread → System → Pc → System
  goto one s p = record s { ones = p }
  goto two s p = record s { twos = p }

  abbrev set_owner : System → Name → Option Thread → System
  set_owner s n o = with_account s n (record (account s n) { owner = o })

  -- One step of the constructor; lock() waits while the mutex has an owner.
  unfoldable pub scoped_lock : Thread → System → Action Local → Option System
  scoped_lock t s (lock m k) = elim (account s (name t m)).owner [
    | none ↦ some (goto t (set_owner s (name t m) (some t)) (acquire k))
    | some _ ↦ none
  ]
  scoped_lock t s (try_lock m taken busy) = elim (account s (name t m)).owner [
    | none ↦ some (goto t (set_owner s (name t m) (some t)) (acquire taken))
    | some _ ↦ some (goto t s (acquire busy))
  ]
  scoped_lock t s (unlock m k) = some (goto t (set_owner s (name t m) none) (acquire k))
  scoped_lock t s done = some (goto t s doze)

  -- One step of thread `t` at `p`.
  unfoldable pub advance : Thread → System → Pc → Option System
  unfolding scoped_lock
  advance t s begin = some (goto t s (acquire enter))
  advance t s (acquire l) = scoped_lock t s (next l)
  advance t s doze = some (goto t s debit)
  advance t s debit = some (goto t s (store_debit (account s (from t)).balance))
  advance t s (store_debit value) = some (
      goto t (with_account s (from t) (record (account s (from t)) { balance = value -ℤ amount }))
        credit)
  advance t s credit = some (goto t s (store_credit (account s (to t)).balance))
  advance t s (store_credit value) = some (
      goto t (with_account s (to t) (record (account s (to t)) { balance = value +ℤ amount }))
        unlock_first)
  advance t s unlock_first = some (goto t (set_owner s (name t released_first) none) unlock_second)
  advance t s unlock_second = some (goto t (set_owner s (name t (other released_first)) none) ended)
  advance t s ended = none

  abbrev pub initial : System
  initial = record {
    alices = record { owner = none; balance = pos 1000 };
    bobs = record { owner = none; balance = pos 1000 };
    ones = begin;
    twos = begin;
  }

  abbrev pub at_pc : System → Thread → Pc
  at_pc s one = s.ones
  at_pc s two = s.twos

  -- The states after any interleaving of the two threads.
  pub data Reach : System → Type 0 where
    start : Reach initial
    later : {s u : System} → Reach s → (t : Thread) → advance t s (at_pc s t) ≡ some u → Reach u

  -- A schedule, executed.
  unfoldable pub run : List Thread → System → Option System
  unfolding advance
  run [] s = some s
  run (t ∷ ts) s = elim (advance t s (at_pc s t)) [ none ↦ none | some u ↦ run ts u ]

  pub Reach-run : (ts : List Thread) (s u : System) → Reach s → run ts s ≡ some u → Reach u
  unfolding run
  Reach-run [] s u r e = let q : s ≡ u = ground arith in subst Reach q r
  Reach-run (t ∷ ts) s u r e = elim (Option-cases (advance t s (at_pc s t))) [
    | inl stuck ↦ absurd (ground arith)
    | inr (v, a) ↦ Reach-run ts v u (later r t a) (ground arith)
  ]

  -- What `main` prints and returns; it is past the joins when both threads have ended.
  pub record Report : Type 0 where
    pub alice_balance : ℤ
    pub bob_balance : ℤ
    pub status : ℕ

  unfoldable pub main : System → Option Report
  main s = elim s.ones [
    | ended ↦ elim s.twos [
      | ended ↦
          some
            (record { alice_balance = s.alices.balance; bob_balance = s.bobs.balance; status = 0 })
      | _ ↦ none
    ]
    | _ ↦ none
  ]
