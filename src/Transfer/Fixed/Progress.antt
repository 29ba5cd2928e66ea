-- ===== src/Transfer/Fixed/Progress.antt =====
-- No deadlock in fixed.cpp: a thread that waits in lock() has nothing, so the one it waits for goes on.
use systems_postmortems.Transfer.Fixed.Contract.{IsLockAlgorithm}
use systems_postmortems.Prelude.{
  true, false, ◌≡◌, ◌≢◌, ◌⊎◌, inl, inr, refl, ap, ◌∙◌, Bool-cases, none, some, Option-cases, arith,
}
use systems_postmortems.Prelude.Int.{pos}
use systems_postmortems.Transfer.Broken.{Thread, one, two, Turn, first, second, name}
use systems_postmortems.Transfer.Fixed.{
  Action, lock, try_lock, unlock, done, Algorithm, other, Pc, acquire, ended, System, account,
  scoped_lock, advance, Reach, main,
}
use systems_postmortems.Transfer.Fixed.Exclusion.{Inv, owns, Reach-Safe, main-balances}

module _ (alg : Algorithm) (law : IsLockAlgorithm alg) where
  -- Thread `t` at `p` owns nothing, and one of its locks has an owner.
  record IsWaiting (t : Thread) (s : System alg) (p : Pc alg) : Type 0 where
    empty : (m : Turn) → owns alg law m p ≡ false
    wanted : Turn
    taken : (account alg s (name t wanted)).owner ≢ none

  scoped_lock-IsWaiting :
      (t : Thread) (s : System alg) (l : alg.Local) (a : Action alg.Local)
      → alg.next l ≡ a
      → scoped_lock alg t s a ≡ none
      → IsWaiting t s (acquire l)
  unfolding scoped_lock
  scoped_lock-IsWaiting t s l (lock m k) n e = record {
    empty = elim [
      | first ↦ ground (arith, law.locks l k m n)
      | second ↦ ground (arith, law.locks l k m n)
    ];
    wanted = m;
    taken = λ f. ground (arith, e, f);
  }
  scoped_lock-IsWaiting t s l (try_lock m k j) n e =
      elim (Option-cases (account alg s (name t m)).owner) [
        | inl f ↦ absurd (ground (arith, e, f))
        | inr (u, f) ↦ absurd (ground (arith, e, f))
      ]
  scoped_lock-IsWaiting t s l (unlock m k) n e = absurd (ground arith)
  scoped_lock-IsWaiting t s l done n e = absurd (ground arith)

  advance-IsWaiting :
      (t : Thread) (s : System alg) (p : Pc alg)
      → advance alg t s p ≡ none
      → (p ≡ ended) ⊎ IsWaiting t s p
  unfolding advance
  advance-IsWaiting t s (acquire l) e = inr (scoped_lock-IsWaiting t s l (alg.next l) refl e)
  advance-IsWaiting t s ended e = inl refl
  advance-IsWaiting t s p e = absurd (ground arith)

  -- What a waiting thread wants, the other thread has: the mutex is the other one of its arguments.
  owned_by_two :
      (p q : Pc alg) (s : System alg) (m : Turn)
      → Inv alg law p q s
      → owns alg law m p ≡ false
      → (account alg s (name one m)).owner ≢ none
      → owns alg law (other m) q ≡ true
  owned_by_two p q s first i free taken = elim (Bool-cases (owns alg law second q)) [
    | inl h ↦ h
    | inr f ↦ absurd (taken (ground (arith, i.alice_owner, free, f)))
  ]
  owned_by_two p q s second i free taken = elim (Bool-cases (owns alg law first q)) [
    | inl h ↦ h
    | inr f ↦ absurd (taken (ground (arith, i.bob_owner, free, f)))
  ]

  owned_by_one :
      (p q : Pc alg) (s : System alg) (m : Turn)
      → Inv alg law p q s
      → owns alg law m q ≡ false
      → (account alg s (name two m)).owner ≢ none
      → owns alg law (other m) p ≡ true
  owned_by_one p q s first i free taken = elim (Bool-cases (owns alg law second p)) [
    | inl h ↦ h
    | inr f ↦ absurd (taken (ground (arith, i.bob_owner, free, f)))
  ]
  owned_by_one p q s second i free taken = elim (Bool-cases (owns alg law first p)) [
    | inl h ↦ h
    | inr f ↦ absurd (taken (ground (arith, i.alice_owner, free, f)))
  ]

  owner-stuck :
      (t : Thread) (s : System alg) (p : Pc alg) (m : Turn)
      → owns alg law m p ≡ true
      → ¬ ((p ≡ ended) ⊎ IsWaiting t s p)
  owner-stuck t s p m has (inl e) = ground (arith, has, e)
  owner-stuck t s p m has (inr w) = ground (arith, has, w.empty m)

  pub ended-main :
      (s : System alg)
      → s.ones ≡ ended
      → s.twos ≡ ended
      → main alg s
        ≡ some
            (record { alice_balance = s.alices.balance; bob_balance = s.bobs.balance; status = 0 })
  unfolding main
  ended-main s a b = ground (arith, a, b)

  -- For an algorithm that keeps the contract: a reachable state in which neither thread can step is one
  -- in which `main` returns 0 and both balances are 1000.
  pub stuck-returned :
      {s : System alg}
      → Reach alg s
      → advance alg one s s.ones ≡ none
      → advance alg two s s.twos ≡ none
      → main alg s ≡ some (record { alice_balance = pos 1000; bob_balance = pos 1000; status = 0 })
  stuck-returned {s} r e f =
      let i = Reach-Safe alg law r in
      elim (advance-IsWaiting one s s.ones e) [
        | inr w ↦ absurd (
            owner-stuck two s s.twos (other w.wanted)
              (owned_by_two s.ones s.twos s w.wanted i (w.empty w.wanted) w.taken)
              (advance-IsWaiting two s s.twos f))
        | inl a ↦ elim (advance-IsWaiting two s s.twos f) [
          | inr w ↦ absurd (
              owner-stuck one s s.ones (other w.wanted)
                (owned_by_one s.ones s.twos s w.wanted i (w.empty w.wanted) w.taken) (inl a))
          | inl b ↦ let ends = ended-main s a b in ends ∙ ap some (main-balances alg law r ends)
        ]
      ]
