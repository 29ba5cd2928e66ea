-- ===== src/Transfer/Broken.antt =====
-- cases/02-lock-order-inversion/broken.cpp: each transfer locks its two accounts in the order of its
-- arguments, and a watchdog looks for the cycle. Every atomic access of `transfer`, lock, unlock and
-- statement is a step, and so are the load and the store of `-=` and `+=` on a balance, which is not
-- atomic. A std::mutex is the thread that owns it; lock() has no step while another owns it.
pub mod Process
pub mod Locking
pub mod Reachable
pub mod Deadlock
pub mod Doom
pub mod Nearer
pub mod Escape
pub mod Watchdog
pub mod Sights
pub mod Alarm
pub mod Fate
pub mod Ends
use systems_postmortems.Prelude.{Bool, true, false, Option, none, some, if◌then◌else◌}
use systems_postmortems.Prelude.Int.{ℤ, pos, ◌+ℤ◌, ◌-ℤ◌}

pub data Name : Type 0 where
  alice bob : Name

pub data Thread : Type 0 where
  one two : Thread

abbrev pub same : Name → Name → Bool
same alice alice = true
same bob bob = true
same _ _ = false

-- An account is found by its name.
pub record Account : Type 0 where
  pub owner : Option Thread  -- of its `lock`
  pub balance : ℤ

-- Which of the two TracedLock objects of `transfer`.
pub data Turn : Type 0 where
  first second : Turn

-- What a thread executes next.
pub data Pc : Type 0 where
  begin : Pc  -- the lambda of `main`
  ask block got note : Turn → Pc  -- the constructor of TracedLock
  doze : Pc  -- the sleep of `transfer`
  debit credit : Pc  -- the loads of `-=` and `+=`
  store_debit store_credit : (value : ℤ) → Pc  -- their stores, with what was loaded
  unnote unlock : Turn → Pc  -- the destructor of TracedLock, then that of its unique_lock
  ended : Pc

pub data Label : Type 0 where
  transfer : Name → Name → Label

pub record ThreadState : Type 0 where
  pub label : Option Label
  pub holding : Option Name
  pub waiting : Option Name

pub record Local : Type 0 where
  pub pc : Pc
  pub state : ThreadState
  pub open state use {label, holding, waiting}

pub record System : Type 0 where
  pub alices : Account
  pub bobs : Account
  pub ones : Local
  pub twos : Local

abbrev pub account : System → Name → Account
account s alice = s.alices
account s bob = s.bobs

abbrev pub with_account : System → Name → Account → System
with_account s alice a = record s { alices = a }
with_account s bob a = record s { bobs = a }

abbrev pub local : System → Thread → Local
local s one = s.ones
local s two = s.twos

abbrev pub with_local : System → Thread → Local → System
with_local s one l = record s { ones = l }
with_local s two l = record s { twos = l }

-- The arguments of the two calls in `main`.
abbrev pub from : Thread → Name
from one = alice
from two = bob

abbrev pub to : Thread → Name
to one = bob
to two = alice

abbrev pub amount : ℤ
amount = pos 10

abbrev pub name : Thread → Turn → Name
name t first = from t
name t second = to t

-- What comes after a lock is taken, and after it is given back.
abbrev pub locked : Turn → Pc
locked first = doze
locked second = debit

abbrev pub released : Turn → Pc
released first = ended
released second = unnote first

-- compare_exchange_strong on `holding`: from `nullptr`, and back to it.
abbrev pub note_first : Option Name → Name → Option Name
note_first none n = some n
note_first (some m) n = some m

abbrev pub clear_own : Option Name → Name → Option Name
clear_own none n = none
clear_own (some m) n = if same m n then none else some m

abbrev pub goto : Thread → System → Pc → System
goto t s p = with_local s t (record (local s t) { pc = p })

abbrev with_state : Thread → System → Pc → ThreadState → System
with_state t s p st = with_local s t (record { pc = p; state = st })

-- The constructor of TracedLock.
unfoldable pub construct : Thread → System → Pc → Option System
construct t s (ask l) =
    some (with_state t s (block l) (record (local s t).state { waiting = some (name t l) }))
construct t s (block l) = elim (account s (name t l)).owner [
  | none ↦ some (
      goto t (with_account s (name t l) (record (account s (name t l)) { owner = some t })) (got l))
  | some _ ↦ none
]
construct t s (got l) = some (with_state t s (note l) (record (local s t).state { waiting = none }))
construct t s (note l) = some (
    with_state t s (locked l)
      (record (local s t).state { holding = note_first (local s t).holding (name t l) }))
construct t s _ = none

-- The destructor of TracedLock.
unfoldable pub destruct : Thread → System → Pc → Option System
destruct t s (unnote l) = some (
    with_state t s (unlock l)
      (record (local s t).state { holding = clear_own (local s t).holding (name t l) }))
destruct t s (unlock l) = some (
    goto t (with_account s (name t l) (record (account s (name t l)) { owner = none }))
      (released l))
destruct t s _ = none

-- One step of thread `t` at `p`: its lambda, `transfer` and the two TracedLock objects.
unfoldable pub advance : Thread → System → Pc → Option System
unfolding construct destruct
advance t s begin = some (
    with_state t s (ask first)
      (record (local s t).state { label = some (transfer (from t) (to t)) }))
advance t s doze = some (goto t s (ask second))
advance t s debit = some (goto t s (store_debit (account s (from t)).balance))
advance t s (store_debit value) = some (
    goto t (with_account s (from t) (record (account s (from t)) { balance = value -ℤ amount }))
      credit)
advance t s credit = some (goto t s (store_credit (account s (to t)).balance))
advance t s (store_credit value) = some (
    goto t (with_account s (to t) (record (account s (to t)) { balance = value +ℤ amount }))
      (unnote second))
advance t s (unnote l) = destruct t s (unnote l)
advance t s (unlock l) = destruct t s (unlock l)
advance t s ended = none
advance t s p = construct t s p

abbrev unset : Local
unset = record { pc = begin; state = record { label = none; holding = none; waiting = none } }

abbrev pub initial : System
initial = record {
  alices = record { owner = none; balance = pos 1000 };
  bobs = record { owner = none; balance = pos 1000 };
  ones = unset;
  twos = unset;
}
