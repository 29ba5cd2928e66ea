-- ===== src/Transfer/Broken/Locking.antt =====
-- What the two threads of case 02 hold, and what the balances are, in every reachable state.
use systems_postmortems.Prelude.{ℕ, Bool, true, false, ◌&&◌, ◌≡◌, Option, none, some, arith}
use systems_postmortems.Prelude.Int.{ℤ, pos, ◌+ℤ◌, ◌-ℤ◌}
use systems_postmortems.Transfer.Broken.{
  Name, Thread, one, two, Turn, first, second, Pc, Label, transfer, begin, ask, block, got, note,
  debit, credit, store_debit, store_credit, unnote, unlock, ended, Local, System, from, to, name,
  advance,
}

-- Which of its two locks a thread at `p` owns.
abbrev pub owns : Turn → Pc → Bool
owns first begin = false
owns first (ask first) = false
owns first (block first) = false
owns first ended = false
owns first _ = true
owns second (got second) = true
owns second (note second) = true
owns second debit = true
owns second credit = true
owns second (store_debit v) = true
owns second (store_credit v) = true
owns second (unnote second) = true
owns second (unlock second) = true
owns second _ = false

-- What a thread at `p` has published.
abbrev pub holding_at : Thread → Pc → Option Name
holding_at t begin = none
holding_at t (ask first) = none
holding_at t (block first) = none
holding_at t (got first) = none
holding_at t (note first) = none
holding_at t (unlock first) = none
holding_at t ended = none
holding_at t _ = some (from t)

abbrev pub label_at : Thread → Pc → Option Label
label_at t begin = none
label_at t _ = some (transfer (from t) (to t))

abbrev pub waiting_at : Thread → Pc → Option Name
waiting_at t (block l) = some (name t l)
waiting_at t (got l) = some (name t l)
waiting_at t _ = none

-- What a thread at `p` has taken from its `from`, and given to its `to`.
abbrev pub debited : Pc → ℕ
debited credit = 10
debited (store_credit v) = 10
debited (unnote l) = 10
debited (unlock l) = 10
debited ended = 10
debited _ = 0

abbrev pub credited : Pc → ℕ
credited (unnote l) = 10
credited (unlock l) = 10
credited ended = 10
credited _ = 0

-- What a thread at `p` has loaded of a balance `b` and not yet stored; of its `from`, and of its `to`.
abbrev pub loads_from : Pc → ℤ → ℤ
loads_from (store_debit v) b = v
loads_from _ b = b

abbrev pub loads_to : Pc → ℤ → ℤ
loads_to (store_credit v) b = v
loads_to _ b = b

loads_from-free : (p : Pc) (b : ℤ) → owns first p ≡ false → loads_from p b ≡ b
loads_from-free p b h = ground arith

loads_to-free : (p : Pc) (b : ℤ) → owns second p ≡ false → loads_to p b ≡ b
loads_to-free p b h = ground arith

-- The owner of a lock that thread `one` owns if `x`, and thread `two` if `y`.
abbrev pub owner_of : Bool → Bool → Option Thread
owner_of true y = some one
owner_of false true = some two
owner_of false false = none

abbrev pub AtPc : Thread → Pc → Local → Type 0
AtPc t p l =
    (l.pc ≡ p)
    × (l.label ≡ label_at t p)
    × (l.holding ≡ holding_at t p)
    × (l.waiting ≡ waiting_at t p)

-- With the threads at `p` and `q`.
pub record Inv (p q : Pc) (s : System) : Type 0 where
  pub at_one : AtPc one p s.ones
  pub at_two : AtPc two q s.twos
  pub alice_owner : s.alices.owner ≡ owner_of (owns first p) (owns second q)
  pub bob_owner : s.bobs.owner ≡ owner_of (owns second p) (owns first q)
  pub alice_apart : (owns first p && owns second q) ≡ false
  pub bob_apart : (owns second p && owns first q) ≡ false
  pub alice_balance : s.alices.balance ≡ pos 1000 -ℤ pos (debited p) +ℤ pos (credited q)
  pub bob_balance : s.bobs.balance ≡ pos 1000 -ℤ pos (debited q) +ℤ pos (credited p)
  pub one_from : loads_from p s.alices.balance ≡ s.alices.balance
  pub one_to : loads_to p s.bobs.balance ≡ s.bobs.balance
  pub two_from : loads_from q s.bobs.balance ≡ s.bobs.balance
  pub two_to : loads_to q s.alices.balance ≡ s.alices.balance

pub Inv-one : (p q : Pc) (s t : System) → Inv p q s → advance one s p ≡ some t → Inv t.ones.pc q t
unfolding advance ◌+ℤ◌ ◌-ℤ◌
Inv-one begin q s t i e = ground arith
Inv-one p q s t i e = ground arith

pub Inv-two : (p q : Pc) (s t : System) → Inv p q s → advance two s q ≡ some t → Inv p t.twos.pc t
unfolding advance ◌+ℤ◌ ◌-ℤ◌
Inv-two p begin s t i e = ground arith
Inv-two p q s t i e = ground arith
