-- ===== src/Transfer/Broken/Sights.antt =====
-- What the loads of case 02's watchdog say of the states that come after them.
use mathlib.Core.Option.{}
use systems_postmortems.Prelude.{Bool, true, false, ◌≡◌, ◌⊎◌, inl, inr, some, arith}
use systems_postmortems.Transfer.Broken.{
  transfer, Thread, local, advance, alice, bob, one, two, first, second, Pc, begin, ask, block, got,
  note, doze, System,
}
use systems_postmortems.Transfer.Broken.Process.{
  DogPc, asleep, at_a_wants, at_b_holds, at_b_wants, at_test, at_a_label, at_b_label, printed,
  reported,
}
use systems_postmortems.Transfer.Broken.Locking.{Inv}
use systems_postmortems.Transfer.Broken.Reachable.{Safe}
use systems_postmortems.Transfer.Broken.Deadlock.{IsDeadlock}
use systems_postmortems.Transfer.Broken.Watchdog.{cycle, deadlock_stuck}

-- A thread that has published its first lock, one that has come to its second, and one that has it or
-- has had it.
abbrev pub noted : Pc → Bool
noted begin = false
noted (ask first) = false
noted (block first) = false
noted (got first) = false
noted (note first) = false
noted _ = true

abbrev pub arrived : Pc → Bool
arrived doze = false
arrived (ask second) = false
arrived p = noted p

abbrev pub passed : Pc → Bool
passed (block second) = false
passed p = arrived p

-- What a report has found: a deadlock, or a thread one that is past its second lock by now.
abbrev pub Found : System → Type 0
Found s = IsDeadlock s ⊎ (passed s.ones.pc ≡ true)

-- What the watchdog's loads say of the state as it goes on.
abbrev pub Sees : DogPc → System → Type 0
Sees (at_a_wants (some a)) s = (a ≡ alice) × (noted s.ones.pc ≡ true)
Sees (at_b_holds (some a) (some b)) s = (a ≡ alice) × (b ≡ bob) × (arrived s.ones.pc ≡ true)
Sees (at_b_wants (some a) (some b) (some c)) s =
    (a ≡ alice) × (b ≡ bob) × (c ≡ bob) × (arrived s.ones.pc ≡ true) × (noted s.twos.pc ≡ true)
Sees (at_test (some a) (some b) (some c) (some d)) s =
    (a ≡ alice) × (b ≡ bob) × (c ≡ bob) × (d ≡ alice) × (arrived s.twos.pc ≡ true) × Found s
Sees (at_a_label a b c d) s =
    (a ≡ alice) × (b ≡ bob) × (c ≡ bob) × (d ≡ alice) × (arrived s.twos.pc ≡ true) × Found s
Sees (at_b_label l a b c d) s =
    (l ≡ some (transfer alice bob))
    × (a ≡ alice)
    × (b ≡ bob)
    × (c ≡ bob)
    × (d ≡ alice)
    × (arrived s.twos.pc ≡ true)
    × Found s
Sees (printed r) s = (reported r ≡ cycle) × Found s
Sees (reported r) s = (reported r ≡ cycle) × Found s
Sees _ s = Unit

-- A step takes a thread on.
record GoesOn (s u : System) : Type 0 where
  ones_noted : noted s.ones.pc ≡ true → noted u.ones.pc ≡ true
  ones_arrived : arrived s.ones.pc ≡ true → arrived u.ones.pc ≡ true
  ones_passed : passed s.ones.pc ≡ true → passed u.ones.pc ≡ true
  twos_noted : noted s.twos.pc ≡ true → noted u.twos.pc ≡ true
  twos_arrived : arrived s.twos.pc ≡ true → arrived u.twos.pc ≡ true

one-GoesOn : (p q : Pc) (s u : System) → Inv p q s → advance one s p ≡ some u → GoesOn s u
unfolding advance
one-GoesOn begin q s u i e = ground arith
one-GoesOn p q s u i e = ground arith

two-GoesOn : (p q : Pc) (s u : System) → Inv p q s → advance two s q ≡ some u → GoesOn s u
unfolding advance
two-GoesOn p begin s u i e = ground arith
two-GoesOn p q s u i e = ground arith

advance-GoesOn :
    (t : Thread) (s u : System) → Safe s → advance t s (local s t).pc ≡ some u → GoesOn s u
advance-GoesOn one s u i e = one-GoesOn s.ones.pc s.twos.pc s u i e
advance-GoesOn two s u i e = two-GoesOn s.ones.pc s.twos.pc s u i e

Found-advance :
    (t : Thread) (s u : System) → Safe s → advance t s (local s t).pc ≡ some u → Found s → Found u
Found-advance t s u i e (inl d) = absurd (ground (arith, deadlock_stuck t s i d, e))
Found-advance t s u i e (inr h) = inr ((advance-GoesOn t s u i e).ones_passed h)

pub Sees-advance :
    (d : DogPc) (t : Thread) (s u : System)
    → Safe s
    → advance t s (local s t).pc ≡ some u
    → Sees d s
    → Sees d u
Sees-advance (at_a_wants (some a)) t s u i e (ea, h) = (ea, (advance-GoesOn t s u i e).ones_noted h)
Sees-advance (at_b_holds (some a) (some b)) t s u i e (ea, eb, h) =
    (ea, eb, (advance-GoesOn t s u i e).ones_arrived h)
Sees-advance (at_b_wants (some a) (some b) (some c)) t s u i e (ea, eb, ec, h, k) =
    let g = advance-GoesOn t s u i e in (ea, eb, ec, g.ones_arrived h, g.twos_noted k)
Sees-advance (at_test (some a) (some b) (some c) (some d)) t s u i e (ea, eb, ec, ed, h, f) =
    (ea, eb, ec, ed, (advance-GoesOn t s u i e).twos_arrived h, Found-advance t s u i e f)
Sees-advance (at_a_label a b c d) t s u i e (ea, eb, ec, ed, h, f) =
    (ea, eb, ec, ed, (advance-GoesOn t s u i e).twos_arrived h, Found-advance t s u i e f)
Sees-advance (at_b_label l a b c d) t s u i e (el, ea, eb, ec, ed, h, f) =
    (el, ea, eb, ec, ed, (advance-GoesOn t s u i e).twos_arrived h, Found-advance t s u i e f)
Sees-advance (printed r) t s u i e (q, f) = (q, Found-advance t s u i e f)
Sees-advance (reported r) t s u i e (q, f) = (q, Found-advance t s u i e f)
Sees-advance asleep t s u i e h = tt
Sees-advance d t s u i e h = tt
