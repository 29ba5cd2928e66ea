-- ===== src/Transfer/Broken/Doom.antt =====
-- The deadlock of case 02's broken process is certain as soon as each thread has its first lock.
use mathlib.Core.Path.{subst₂}
use systems_postmortems.Prelude.{Bool, true, false, ◌≡◌, refl, ◌⊎◌, none, some, arith, subst}
use systems_postmortems.Prelude.Int.{pos, ◌+ℤ◌, ◌-ℤ◌}
use systems_postmortems.Transfer.Broken.{
  Thread, one, two, first, second, ask, block, got, note, doze, Pc, begin, ended, System, local,
  advance,
}
use systems_postmortems.Transfer.Broken.Process.{
  Process, DogPc, Actor, MainPc, returned, join_one, join_two, main, status, step, Reach, start,
  later,
}
use systems_postmortems.Transfer.Broken.Locking.{Inv, debited, credited}
use systems_postmortems.Transfer.Broken.Reachable.{
  Safe, Reach-Safe, Move, threads, watches, mains, Move-step,
}

-- Between taking its first lock and taking its second.
abbrev pub half_locked : Pc → Bool
half_locked (got first) = true
half_locked (note first) = true
half_locked doze = true
half_locked (ask second) = true
half_locked (block second) = true
half_locked _ = false

-- Each thread has its first lock, and neither its second.
pub record IsDoomed (s : System) : Type 0 where
  pub one_half : half_locked s.ones.pc ≡ true
  pub two_half : half_locked s.twos.pc ≡ true

half-one :
    (p q : Pc) (s t : System)
    → Inv p q s
    → advance one s p ≡ some t
    → half_locked p ≡ true
    → half_locked q ≡ true
    → (half_locked t.ones.pc ≡ true) × (half_locked t.twos.pc ≡ true)
unfolding advance
half-one begin q s t i e x y = cc
half-one p q s t i e x y = ground arith

half-two :
    (p q : Pc) (s t : System)
    → Inv p q s
    → advance two s q ≡ some t
    → half_locked p ≡ true
    → half_locked q ≡ true
    → (half_locked t.ones.pc ≡ true) × (half_locked t.twos.pc ≡ true)
unfolding advance
half-two p begin s t i e x y = cc
half-two p q s t i e x y = ground arith

IsDoomed-advance :
    (t : Thread) (s u : System)
    → Safe s
    → advance t s (local s t).pc ≡ some u
    → IsDoomed s
    → IsDoomed u
IsDoomed-advance one s u i e d =
    let h = half-one s.ones.pc s.twos.pc s u i e d.one_half d.two_half in
    record { one_half = h.0; two_half = h.1 }
IsDoomed-advance two s u i e d =
    let h = half-two s.ones.pc s.twos.pc s u i e d.one_half d.two_half in
    record { one_half = h.0; two_half = h.1 }

-- What `main` has waited for.
pub Joined : MainPc → System → Type 0
Joined join_one s = Unit
Joined join_two s = s.ones.pc ≡ ended
Joined returned s = (s.ones.pc ≡ ended) × (s.twos.pc ≡ ended)

ended_kept :
    (p : Pc) (t r : Thread) (s u : System)
    → (local s t).pc ≡ p
    → advance t s p ≡ some u
    → (local s r).pc ≡ ended
    → (local u r).pc ≡ ended
unfolding advance
ended_kept begin t r s u h e x = ground arith
ended_kept p t r s u h e x = ground arith

ended-advance :
    (t r : Thread) (s u : System)
    → advance t s (local s t).pc ≡ some u
    → (local s r).pc ≡ ended
    → (local u r).pc ≡ ended
ended-advance t r s u e x = ended_kept (local s t).pc t r s u refl e x

Joined-advance :
    (m : MainPc) (t : Thread) (s u : System)
    → advance t s (local s t).pc ≡ some u
    → Joined m s
    → Joined m u
unfolding Joined
Joined-advance join_one t s u e j = tt
Joined-advance join_two t s u e j = ended-advance t one s u e j
Joined-advance returned t s u e j = (ended-advance t one s u e j.0, ended-advance t two s u e j.1)

Joined-main : (m n : MainPc) (s : System) → main s m ≡ some n → Joined m s → Joined n s
unfolding Joined main
Joined-main join_one n s e j = ground arith
Joined-main join_two n s e j = ground arith
Joined-main returned n s e j = cc

Joined-Move : {p q : Process} → Move p q → Joined p.at p.sys → Joined q.at q.sys
Joined-Move {p} {q} (threads t e _ same) j =
    subst (λ m. Joined m q.sys) same (Joined-advance p.at t p.sys q.sys e j)
Joined-Move {p} (watches sys at _) j = subst₂ Joined at sys j
Joined-Move {p} {q} (mains sys _ e) j = subst (Joined q.at) sys (Joined-main p.at q.at p.sys e j)

pub Joined-Reach : {p : Process} → Reach p → Joined p.at p.sys
unfolding Joined
Joined-Reach start = tt
Joined-Reach (later {p} {q} r a e) = Joined-Move (Move-step a p q e) (Joined-Reach r)

-- Any further steps of a process.
pub data Later (p : Process) : Process → Type 0 where
  now : Later p p
  then_ : {q r : Process} → Later p q → (a : Actor) → step a q ≡ some r → Later p r

pub Reach-Later : {p q : Process} → Reach p → Later p q → Reach q
Reach-Later r now = r
Reach-Later r (then_ l a e) = later (Reach-Later r l) a e

IsDoomed-Move : {p q : Process} → Move p q → Safe p.sys → IsDoomed p.sys → IsDoomed q.sys
IsDoomed-Move (threads t e _ _) i d = IsDoomed-advance t _ _ i e d
IsDoomed-Move (watches e _ _) i d = subst IsDoomed e d
IsDoomed-Move (mains e _ _) i d = subst IsDoomed e d

IsDoomed-Later : {p q : Process} → Reach p → IsDoomed p.sys → Later p q → IsDoomed q.sys
IsDoomed-Later r d now = d
IsDoomed-Later r d (then_ {q = u} {r = v} l a e) =
    IsDoomed-Move (Move-step a u v e) (Reach-Safe (Reach-Later r l)) (IsDoomed-Later r d l)

pub not-Joined : (m : MainPc) (s : System) → Joined m s → IsDoomed s → m ≡ join_one
unfolding Joined
not-Joined join_one s j d = refl
not-Joined join_two s j d = ground (arith, d.one_half)
not-Joined returned s j d = ground (arith, d.one_half)

half_idle : (p : Pc) → half_locked p ≡ true → (debited p ≡ 0) × (credited p ≡ 0)
half_idle p h = ground arith

status_cases : (d : DogPc) → (status d join_one ≡ none) ⊎ (status d join_one ≡ some 1)
status_cases d = ground arith

-- Once each thread has its first lock and neither its second, no schedule lets either transfer reach
-- its first store to a balance or `main` get past its first join: the process ends, if at all, by the
-- watchdog's exit with 1.
pub IsDoomed-forever :
    {p q : Process}
    → Reach p
    → IsDoomed p.sys
    → Later p q
    → IsDoomed q.sys
      × (q.at ≡ join_one)
      × (q.sys.alices.balance ≡ pos 1000)
      × (q.sys.bobs.balance ≡ pos 1000)
      × ((status q.dog q.at ≡ none) ⊎ (status q.dog q.at ≡ some 1))
unfolding ◌+ℤ◌ ◌-ℤ◌
IsDoomed-forever {q} r d l =
    let e = IsDoomed-Later r d l in
    let i = Reach-Safe (Reach-Later r l) in
    let at = not-Joined q.at q.sys (Joined-Reach (Reach-Later r l)) e in
    let x = half_idle q.sys.ones.pc e.one_half in
    let y = half_idle q.sys.twos.pc e.two_half in
    (
      e,
      at,
      ground (arith, i.alice_balance),
      ground (arith, i.bob_balance),
      rw at (status_cases q.dog),
    )
