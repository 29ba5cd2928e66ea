-- ===== src/Transfer/Broken/Reachable.antt =====
-- The invariant of `Locking` holds in every reachable state of case 02's broken process; what it says
-- of the locks and the balances.
use systems_postmortems.Prelude.{
  ℕ, ◌+◌, ◌-◌, ◌≤◌, Bool, true, false, ◌&&◌, ◌≡◌, some, arith, subst, sym, ap,
}
use systems_postmortems.Prelude.Int.{pos, ◌+ℤ◌, ◌-ℤ◌, ◌≤ℤ◌, int_laws, pos_part, neg_part}
use systems_postmortems.Transfer.Broken.{
  Thread, one, two, first, second, Pc, System, local, advance, initial,
}
use systems_postmortems.Transfer.Broken.Process.{
  Process, Actor, thread, dog, main_thread, watchdog, main, step, thread-some, dog-some, main-some,
  Reach, start, later,
}
use systems_postmortems.Transfer.Broken.Locking.{Inv, Inv-one, Inv-two, owns, debited, credited}

abbrev pub Safe : System → Type 0
Safe s = Inv s.ones.pc s.twos.pc s

-- What a step does to the system under the watchdog.
pub data Move (p : Process) (q : Process) : Type 0 where
  threads :
      (t : Thread)
      → advance t p.sys (local p.sys t).pc ≡ some q.sys
      → p.dog ≡ q.dog
      → p.at ≡ q.at
      → Move p q
  watches : p.sys ≡ q.sys → p.at ≡ q.at → watchdog p.sys p.dog ≡ some q.dog → Move p q
  mains : p.sys ≡ q.sys → p.dog ≡ q.dog → main p.sys p.at ≡ some q.at → Move p q

pub Move-step : (a : Actor) (p q : Process) → step a p ≡ some q → Move p q
Move-step (thread t) p q e = let (made, dogs, at) = thread-some t p q e in threads t made dogs at
Move-step dog p q e = let (sys, at, made) = dog-some p q e in watches sys at made
Move-step main_thread p q e = let (sys, dogs, made) = main-some p q e in mains sys dogs made

Safe-advance : (t : Thread) (s u : System) → Safe s → advance t s (local s t).pc ≡ some u → Safe u
Safe-advance one s u i e =
    let j = Inv-one s.ones.pc s.twos.pc s u i e in subst (λ q. Inv u.ones.pc q u) (sym j.at_two.0) j
Safe-advance two s u i e =
    let j = Inv-two s.ones.pc s.twos.pc s u i e in subst (λ p. Inv p u.twos.pc u) (sym j.at_one.0) j

Safe-Move : {p q : Process} → Move p q → Safe p.sys → Safe q.sys
Safe-Move (threads t e _ _) i = Safe-advance t _ _ i e
Safe-Move (watches e _ _) i = subst Safe e i
Safe-Move (mains e _ _) i = subst Safe e i

Safe-initial : Safe initial
unfolding ◌+ℤ◌ ◌-ℤ◌
Safe-initial = ground arith

pub Reach-Safe : {p : Process} → Reach p → Safe p.sys
Reach-Safe start = Safe-initial
Reach-Safe (later {p} {q} r a e) = Safe-Move (Move-step a p q e) (Reach-Safe r)

abbrev pub other : Thread → Thread
other one = two
other two = one

abbrev owns_both : Pc → Bool
owns_both p = owns first p && owns second p

-- In every reachable state, while a thread is between its two acquisitions and its first release, it
-- owns both mutexes and the other thread owns neither.
pub exclusion :
    {p : Process} (t : Thread)
    → Reach p
    → owns_both (local p.sys t).pc ≡ true
    → (p.sys.alices.owner ≡ some t)
      × (p.sys.bobs.owner ≡ some t)
      × (owns first (local p.sys (other t)).pc ≡ false)
      × (owns second (local p.sys (other t)).pc ≡ false)
exclusion {p} one r h =
    let i = Reach-Safe r in ground (arith, i.alice_owner, i.bob_owner, i.alice_apart, i.bob_apart)
exclusion {p} two r h =
    let i = Reach-Safe r in ground (arith, i.alice_owner, i.bob_owner, i.alice_apart, i.bob_apart)

moved : (p : Pc) → (credited p ≤ debited p) × (debited p ≤ 10)
moved p = ground arith

-- What is between the two accounts: taken by a transfer and not yet given.
abbrev in_flight : System → ℕ
in_flight s = (debited s.ones.pc - credited s.ones.pc) + (debited s.twos.pc - credited s.twos.pc)

-- In every reachable state each balance is between 990 and 1010, and the two balances and what is in
-- flight add up to 2000.
pub conservation :
    {p : Process}
    → Reach p
    → (p.sys.alices.balance +ℤ p.sys.bobs.balance +ℤ pos (in_flight p.sys) ≡ pos 2000)
      × (pos 990 ≤ℤ p.sys.alices.balance)
      × (p.sys.alices.balance ≤ℤ pos 1010)
      × (pos 990 ≤ℤ p.sys.bobs.balance)
      × (p.sys.bobs.balance ≤ℤ pos 1010)
conservation {p} r =
    let i = Reach-Safe r in
    omega (
      int_laws,
      moved p.sys.ones.pc,
      moved p.sys.twos.pc,
      ap pos_part i.alice_balance,
      ap neg_part i.alice_balance,
      ap pos_part i.bob_balance,
      ap neg_part i.bob_balance,
    )
