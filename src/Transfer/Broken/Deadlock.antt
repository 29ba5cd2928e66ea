-- ===== src/Transfer/Broken/Deadlock.antt =====
-- The one state in which the threads of case 02's broken process stop before their end.
use systems_postmortems.Prelude.{◌≡◌, ◌⊎◌, inl, inr, none, some, arith}
use systems_postmortems.Prelude.Int.{pos, ◌+ℤ◌, ◌-ℤ◌}
use systems_postmortems.Transfer.Broken.{one, two, second, block, Pc, begin, ended, System, advance}
use systems_postmortems.Transfer.Broken.Process.{Process, Reach}
use systems_postmortems.Transfer.Broken.Locking.{Inv}
use systems_postmortems.Transfer.Broken.Reachable.{Reach-Safe}

-- Both threads wait for the lock of their second account.
pub record IsDeadlock (s : System) : Type 0 where
  pub one_waits : s.ones.pc ≡ block second
  pub two_waits : s.twos.pc ≡ block second

pub stuck_cases :
    (p q : Pc) (s : System)
    → Inv p q s
    → advance one s p ≡ none
    → advance two s q ≡ none
    → ((p ≡ ended) × (q ≡ ended)) ⊎ ((p ≡ block second) × (q ≡ block second))
unfolding advance
stuck_cases begin q s i a b = ground arith
stuck_cases p q s i a b = ground arith

-- In every reachable state in which neither thread can step, both transfers are complete and each
-- account is back at 1000, or both threads wait for their second lock, which the other one owns.
stuck_iff :
    {p : Process}
    → Reach p
    → advance one p.sys p.sys.ones.pc ≡ none
    → advance two p.sys p.sys.twos.pc ≡ none
    → ((p.sys.ones.pc ≡ ended)
        × (p.sys.twos.pc ≡ ended)
        × (p.sys.alices.balance ≡ pos 1000)
        × (p.sys.bobs.balance ≡ pos 1000))
      ⊎ (IsDeadlock p.sys × (p.sys.alices.owner ≡ some one) × (p.sys.bobs.owner ≡ some two))
unfolding ◌+ℤ◌ ◌-ℤ◌
stuck_iff {p} r a b =
    let i = Reach-Safe r in
    elim (stuck_cases p.sys.ones.pc p.sys.twos.pc p.sys i a b) [
      | inl (x, y) ↦ inl (x, y, ground (arith, i.alice_balance), ground (arith, i.bob_balance))
      | inr (x, y) ↦ inr (
        record { one_waits = x; two_waits = y },
        ground (arith, i.alice_owner),
        ground (arith, i.bob_owner),
      )
    ]
