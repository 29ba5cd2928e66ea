-- ===== src/Transfer/Broken/Escape.antt =====
-- Outside the doomed states case 02's broken process can still return, whatever has happened so far.
use systems_postmortems.Prelude.{
  ℕ, zero, suc, ◌+◌, ◌≤◌, false, ◌&&◌, ◌≡◌, ◌↔◌, inl, inr, refl, Bool-cases, none, some, arith,
}
use systems_postmortems.Prelude.Int.{pos, ◌+ℤ◌, ◌-ℤ◌}
use systems_postmortems.Transfer.Broken.{Thread, ended, System, local, advance}
use systems_postmortems.Transfer.Broken.Process.{
  Process, Actor, thread, main_thread, MainPc, returned, join_one, join_two, is_ended, main, status,
  step, Reach, later,
}
use systems_postmortems.Transfer.Broken.Locking.{}
use systems_postmortems.Transfer.Broken.Reachable.{Reach-Safe}
use systems_postmortems.Transfer.Broken.Doom.{
  half_locked, IsDoomed, IsDoomed-forever, Later, Reach-Later, now, then_,
}
use systems_postmortems.Transfer.Broken.Nearer.{left, pick, picked-IsNearer}

abbrev with_sys : Process → System → Process
with_sys p s = record p { sys = s }

thread-step :
    (p : Process) (t : Thread) (u : System)
    → status p.dog p.at ≡ none
    → advance t p.sys (local p.sys t).pc ≡ some u
    → step (thread t) p ≡ some (with_sys p u)
unfolding step
thread-step p t u live e = ground (arith, live, e)

Later-step : {p q r : Process} (a : Actor) → step a p ≡ some q → Later q r → Later p r
Later-step a e now = then_ now a e
Later-step a e (then_ l b f) = then_ (Later-step a e l) b f

Later-trans : {p q r : Process} → Later p q → Later q r → Later p r
Later-trans a now = a
Later-trans a (then_ l b f) = then_ (Later-trans a l) b f

-- The run that lets the picked thread step until both have ended.
finish :
    (n : ℕ) {p : Process}
    → Reach p
    → status p.dog p.at ≡ none
    → (half_locked p.sys.ones.pc && half_locked p.sys.twos.pc) ≡ false
    → left p.sys.ones.pc + left p.sys.twos.pc ≤ n
    → (s : System) × Later p (with_sys p s) × (s.ones.pc ≡ ended) × (s.twos.pc ≡ ended)
finish zero {p} r live free le = (p.sys, now, ground (arith, le), ground (arith, le))
finish (suc n) {p} r live free le =
    elim (Bool-cases (is_ended p.sys.ones.pc && is_ended p.sys.twos.pc)) [
      | inl over ↦ (p.sys, now, ground (arith, over), ground (arith, over))
      | inr alive ↦
          let (t, u, e, d) =
            picked-IsNearer p.sys (Reach-Safe r) free alive (pick p.sys.ones.pc p.sys.twos.pc)
              refl in
          let moves = thread-step p t u live e in
          let (s, l, a, b) =
            finish n {p = with_sys p u} (later r (thread t) moves) live d.free
              (omega (arith, d.nearer, le)) in
          (s, Later-step (thread t) moves l, a, b)
    ]

at_main :
    (p : Process) (m : MainPc)
    → status p.dog p.at ≡ none
    → main p.sys p.at ≡ some m
    → step main_thread p ≡ some (record p { at = m })
unfolding step
at_main p m live e = ground (arith, live, e)

module _ (p : Process) (live : status p.dog p.at ≡ none) (a : p.sys.ones.pc ≡ ended)
    (b : p.sys.twos.pc ≡ ended) where
  from_two : p.at ≡ join_two → Later p (record p { at = returned })
  unfolding main
  from_two q = then_ now main_thread (at_main p returned live (ground (arith, q, b)))

joins :
    (m : MainPc) (p : Process)
    → p.at ≡ m
    → status p.dog p.at ≡ none
    → p.sys.ones.pc ≡ ended
    → p.sys.twos.pc ≡ ended
    → Later p (record p { at = returned })
unfolding main
joins join_one p q live a b =
    let first : step main_thread p ≡ some (record p { at = join_two }) =
      at_main p join_two live (ground (arith, q, a)) in
    Later-step main_thread first
      (from_two (record p { at = join_two }) (ground (arith, live)) a b refl)
joins join_two p q live a b = from_two p live a b q
joins returned p q live a b = absurd (ground (arith, q, live))

-- `main` has returned 0, and each account is back at 1000.
pub record Returns (q : Process) : Type 0 where
  pub exit : status q.dog q.at ≡ some 0
  pub alice_back : q.sys.alices.balance ≡ pos 1000
  pub bob_back : q.sys.bobs.balance ≡ pos 1000

escape :
    {p : Process}
    → Reach p
    → status p.dog p.at ≡ none
    → (half_locked p.sys.ones.pc && half_locked p.sys.twos.pc) ≡ false
    → (q : Process) × Later p q × Returns q
unfolding ◌+ℤ◌ ◌-ℤ◌
escape {p} r live free =
    let (s, l, a, b) = finish (left p.sys.ones.pc + left p.sys.twos.pc) r live free (omega arith) in
    let q = with_sys p s in
    let i = Reach-Safe (Reach-Later r l) in
    (
      record q { at = returned },
      Later-trans l (joins p.at q refl live a b),
      record {
        exit = ground (arith, live);
        alice_back = ground (arith, i.alice_balance, a, b);
        bob_back = ground (arith, i.bob_balance, a, b);
      },
    )

-- A reachable process that has not exited can go on to return 0, with each account back at 1000,
-- exactly when it is not so that each thread has its first lock and neither its second.
pub return_iff :
    {p : Process}
    → Reach p
    → status p.dog p.at ≡ none
    → ((q : Process) × Later p q × Returns q) ↔ (¬ (IsDoomed p.sys))
return_iff {p} r live = (
  λ (q, l, x) d. elim (IsDoomed-forever r d l).4 [
    | inl running ↦ ground (arith, running, x.exit)
    | inr caught ↦ ground (arith, caught, x.exit)
  ],
  λ fine. elim (Bool-cases (half_locked p.sys.ones.pc && half_locked p.sys.twos.pc)) [
    | inr free ↦ escape r live free
    | inl both ↦
        absurd (fine (record { one_half = ground (arith, both); two_half = ground (arith, both) }))
  ],
)
