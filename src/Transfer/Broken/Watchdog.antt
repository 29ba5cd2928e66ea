-- ===== src/Transfer/Broken/Watchdog.antt =====
-- What the watchdog of case 02 finds.
use systems_postmortems.Prelude.{◌≡◌, none, some, List, [], ◌∷◌, arith}
use systems_postmortems.Transfer.Broken.{
  Name, Thread, local, advance, alice, bob, transfer, one, two, second, Pc, begin, block, System,
  local, advance,
}
use systems_postmortems.Transfer.Broken.Process.{
  Process, DogPc, asleep, quiet, reported, Actor, thread, dog, main_thread, join_one, status, step,
  run, Reach,
}
use systems_postmortems.Transfer.Broken.Locking.{Inv}
use systems_postmortems.Transfer.Broken.Reachable.{Safe, Reach-Safe}
use systems_postmortems.Transfer.Broken.Deadlock.{IsDeadlock}
use systems_postmortems.Transfer.Broken.Doom.{Joined-Reach, not-Joined}

snapshot_pcs :
    (p q : Pc) (a b c d : Name) (s : System)
    → Inv p q s
    → s.ones.holding ≡ some a
    → s.ones.waiting ≡ some b
    → s.twos.holding ≡ some c
    → s.twos.waiting ≡ some d
    → (p ≡ block second) × (q ≡ block second) × (a ≡ alice) × (b ≡ bob) × (c ≡ bob) × (d ≡ alice)
snapshot_pcs begin q a b c d s i ha hb hc hd = ground arith
snapshot_pcs p q a b c d s i ha hb hc hd = ground arith

-- If all four published names are set in one reachable state, the threads are deadlocked in it, and
-- the names are the cycle: thread one holds alice and wants bob, thread two the other way round.
snapshot-IsDeadlock :
    {p : Process} (a b c d : Name)
    → Reach p
    → p.sys.ones.holding ≡ some a
    → p.sys.ones.waiting ≡ some b
    → p.sys.twos.holding ≡ some c
    → p.sys.twos.waiting ≡ some d
    → IsDeadlock p.sys × (a ≡ alice) × (b ≡ bob) × (c ≡ bob) × (d ≡ alice)
snapshot-IsDeadlock {p} a b c d r ha hb hc hd =
    let (x, y, ea, eb, ec, ed) =
      snapshot_pcs p.sys.ones.pc p.sys.twos.pc a b c d p.sys (Reach-Safe r) ha hb hc hd in
    (record { one_waits = x; two_waits = y }, ea, eb, ec, ed)

abbrev pub cycle : DogPc
cycle = reported (record {
  a_label = some (transfer alice bob);
  b_label = some (transfer bob alice);
  a_holds = alice;
  a_wants = bob;
  b_holds = bob;
  b_wants = alice;
})

abbrev pub watch : List Actor
watch = dog ∷ dog ∷ dog ∷ dog ∷ dog ∷ dog ∷ dog ∷ dog ∷ dog ∷ []

-- What the watchdog's loads find in a deadlock.
pub record Published (s : System) : Type 0 where
  pub labels :
      (s.ones.label ≡ some (transfer alice bob)) × (s.twos.label ≡ some (transfer bob alice))
  pub ones : (s.ones.holding ≡ some alice) × (s.ones.waiting ≡ some bob)
  pub twos : (s.twos.holding ≡ some bob) × (s.twos.waiting ≡ some alice)

pub Published-IsDeadlock : (s : System) → Safe s → IsDeadlock s → Published s
Published-IsDeadlock s i d = record {
  labels = ground (arith, d.one_waits, d.two_waits, i.at_one, i.at_two);
  ones = ground (arith, d.one_waits, i.at_one);
  twos = ground (arith, d.two_waits, i.at_two);
}

pub watch-Published :
    (s : System)
    → Published s
    → run watch (record { sys = s; dog = asleep; at = join_one })
      ≡ some (record { sys = s; dog = cycle; at = join_one })
unfolding run
watch-Published s h = rw (h.labels.0, h.labels.1, h.ones.0, h.ones.1, h.twos.0, h.twos.1)

pub deadlock_stuck :
    (t : Thread) (s : System) → Safe s → IsDeadlock s → advance t s (local s t).pc ≡ none
unfolding advance
deadlock_stuck one s i d = rw d.one_waits (ground (arith, d.one_waits, d.two_waits, i.bob_owner))
deadlock_stuck two s i d = rw d.two_waits (ground (arith, d.one_waits, d.two_waits, i.alice_owner))

module _ {p : Process} (r : Reach p) (d : IsDeadlock p.sys) where
  pub deadlock-at : p.at ≡ join_one
  deadlock-at =
      not-Joined p.at p.sys (Joined-Reach r)
        (record { one_half = rw d.one_waits; two_half = rw d.two_waits })

  -- From a reachable deadlock that the watchdog missed, because it looked earlier, nothing ever
  -- happens: no actor can step, and the process has not ended.
  pub hang : p.dog ≡ quiet → (status p.dog p.at ≡ none) × ((a : Actor) → step a p ≡ none)
  unfolding step
  hang e = (quiet_status, λ a. nobody a)
    where
      quiet_status : status p.dog p.at ≡ none
      quiet_status = rw (e, deadlock-at)

      nobody : (a : Actor) → step a p ≡ none
      nobody (thread t) = ground (arith, quiet_status, deadlock_stuck t p.sys (Reach-Safe r) d)
      nobody dog = ground (arith, quiet_status)
      nobody main_thread = ground (arith, quiet_status, deadlock-at, d.one_waits)
