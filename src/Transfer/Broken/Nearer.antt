-- ===== src/Transfer/Broken/Nearer.antt =====
-- Outside the doomed states of case 02's broken process some thread can step, nearer to the end.
use systems_postmortems.Prelude.{
  ℕ, ◌+◌, Bool, false, ◌&&◌, not, ◌≡◌, ◌≢◌, inl, inr, Option-cases, none, some, if◌then◌else◌,
  arith,
}
use systems_postmortems.Prelude.Int.{}
use systems_postmortems.Transfer.Broken.{
  Thread, one, two, first, second, ask, block, got, note, doze, debit, credit, store_debit,
  store_credit, unnote, unlock, Pc, begin, ended, System, local, advance,
}
use systems_postmortems.Transfer.Broken.Process.{is_ended}
use systems_postmortems.Transfer.Broken.Locking.{Inv, owns}
use systems_postmortems.Transfer.Broken.Reachable.{Safe}
use systems_postmortems.Transfer.Broken.Doom.{half_locked}

-- The steps that a thread is from its end, if it never waits.
abbrev pub left : Pc → ℕ
left begin = 18
left (ask first) = 17
left (block first) = 16
left (got first) = 15
left (note first) = 14
left doze = 13
left (ask second) = 12
left (block second) = 11
left (got second) = 10
left (note second) = 9
left debit = 8
left (store_debit v) = 7
left credit = 6
left (store_credit v) = 5
left (unnote second) = 4
left (unlock second) = 3
left (unnote first) = 2
left (unlock first) = 1
left ended = 0

-- From its second lock to the release of its first.
abbrev pub past : Pc → Bool
past p = owns first p && not (half_locked p)

-- The thread that can step without dooming the process: one past its second lock before one that is
-- on its way there, and that before one that has nothing.
abbrev pub pick : Pc → Pc → Thread
pick p q =
    if past p
    then one
    else if past q
    then two
    else if half_locked p
    then one
    else if half_locked q
    then two
    else if is_ended p
    then two
    else one

picked_one :
    (p q : Pc) (s : System)
    → Inv p q s
    → (half_locked p && half_locked q) ≡ false
    → pick p q ≡ one
    → (is_ended p && is_ended q) ≡ false
    → advance one s p ≢ none
unfolding advance
picked_one begin q s i free pk alive e = ground arith
picked_one p q s i free pk alive e = ground arith

picked_two :
    (p q : Pc) (s : System)
    → Inv p q s
    → (half_locked p && half_locked q) ≡ false
    → pick p q ≡ two
    → (is_ended p && is_ended q) ≡ false
    → advance two s q ≢ none
unfolding advance
picked_two p begin s i free pk alive e = ground arith
picked_two p q s i free pk alive e = ground arith

-- Nearer to the end of both threads by one step, and still not doomed.
pub record IsNearer (s u : System) : Type 0 where
  pub nearer : left u.ones.pc + left u.twos.pc + 1 ≡ left s.ones.pc + left s.twos.pc
  pub free : (half_locked u.ones.pc && half_locked u.twos.pc) ≡ false

one-IsNearer :
    (p q : Pc) (s u : System)
    → Inv p q s
    → (half_locked p && half_locked q) ≡ false
    → pick p q ≡ one
    → advance one s p ≡ some u
    → IsNearer s u
unfolding advance
one-IsNearer begin q s u i free pk e = ground arith
one-IsNearer p q s u i free pk e = ground arith

two-IsNearer :
    (p q : Pc) (s u : System)
    → Inv p q s
    → (half_locked p && half_locked q) ≡ false
    → pick p q ≡ two
    → advance two s q ≡ some u
    → IsNearer s u
unfolding advance
two-IsNearer p begin s u i free pk e = ground arith
two-IsNearer p q s u i free pk e = ground arith

module _ (s : System) (i : Safe s) (free : (half_locked s.ones.pc && half_locked s.twos.pc) ≡ false)
    (alive : (is_ended s.ones.pc && is_ended s.twos.pc) ≡ false) where
  pub picked-IsNearer :
      (t : Thread)
      → pick s.ones.pc s.twos.pc ≡ t
      → (t : Thread) × (u : System) × (advance t s (local s t).pc ≡ some u) × IsNearer s u
  picked-IsNearer one pk = elim (Option-cases (advance one s s.ones.pc)) [
    | inl stuck ↦ absurd (picked_one s.ones.pc s.twos.pc s i free pk alive stuck)
    | inr (u, e) ↦ (one, u, e, one-IsNearer s.ones.pc s.twos.pc s u i free pk e)
  ]
  picked-IsNearer two pk = elim (Option-cases (advance two s s.twos.pc)) [
    | inl stuck ↦ absurd (picked_two s.ones.pc s.twos.pc s i free pk alive stuck)
    | inr (u, e) ↦ (two, u, e, two-IsNearer s.ones.pc s.twos.pc s u i free pk e)
  ]
