-- ===== src/Transfer/Fixed/Steps.antt =====
-- The steps of fixed.cpp's threads under a progressive algorithm: they bring a thread nearer to giving
-- its mutexes back, and one that nothing is in the way of nearer to its end.
use systems_postmortems.Transfer.Fixed.Contract.{IsLockAlgorithm, IsProgressive}
use systems_postmortems.Prelude.{
  ℕ, ◌+◌, ◌<◌, Bool, true, false, ◌||◌, ◌≡◌, ◌≢◌, ◌⊎◌, inl, inr, refl, Bool-cases, none, some,
  Option-cases, arith,
}
use systems_postmortems.Prelude.Int.{}
use systems_postmortems.Transfer.Broken.{Thread, one, two, Turn, first, second, name}
use systems_postmortems.Transfer.Fixed.{
  Action, lock, try_lock, unlock, done, Algorithm, Pc, begin, acquire, doze, debit, credit,
  store_debit, store_credit, unlock_first, unlock_second, ended, System, account, scoped_lock,
  advance, at_pc, Reach, later,
}
use systems_postmortems.Transfer.Fixed.Progress.{}
use systems_postmortems.Transfer.Fixed.Exclusion.{owns, Safe, Reach-Safe}

abbrev pub partner : Thread → Thread
partner one = two
partner two = one

-- Any further steps of the threads.
pub data Later (alg : Algorithm) (s : System alg) : System alg → Type 0 where
  now : Later alg s s
  then_ :
      {u v : System alg}
      → Later alg s u
      → (t : Thread) → advance alg t u (at_pc alg u t) ≡ some v
      → Later alg s v

pub Later-step :
    {alg : Algorithm} {s u v : System alg} (t : Thread)
    → advance alg t s (at_pc alg s t) ≡ some u
    → Later alg u v
    → Later alg s v
Later-step t e now = then_ now t e
Later-step t e (then_ l r f) = then_ (Later-step t e l) r f

pub Later-trans :
    {alg : Algorithm} {s u v : System alg} → Later alg s u → Later alg u v → Later alg s v
Later-trans l now = l
Later-trans l (then_ k t e) = then_ (Later-trans l k) t e

pub Reach-Later : {alg : Algorithm} {s u : System alg} → Reach alg s → Later alg s u → Reach alg u
Reach-Later r now = r
Reach-Later r (then_ l t e) = later (Reach-Later r l) t e

module _ (alg : Algorithm) (law : IsLockAlgorithm alg) (moves : IsProgressive alg law) where
  abbrev pub holds : Pc alg → Bool
  holds p = owns alg law first p || owns alg law second p

  -- The steps to the end of a thread that nothing is in the way of.
  abbrev pub left : Pc alg → ℕ
  left begin = moves.rank alg.enter + 9
  left (acquire l) = moves.rank l + 8
  left doze = 7
  left debit = 6
  left (store_debit v) = 5
  left credit = 4
  left (store_credit v) = 3
  left unlock_first = 2
  left unlock_second = 1
  left ended = 0

  -- The steps of a thread that holds a mutex until it holds none.
  abbrev pub held : Pc alg → ℕ
  held begin = 0
  held (acquire l) = moves.patience l + 8
  held doze = 7
  held debit = 6
  held (store_debit v) = 5
  held credit = 4
  held (store_credit v) = 3
  held unlock_first = 2
  held unlock_second = 1
  held ended = 0

  -- Thread `t` has made a step, and the other one none.
  pub record IsStep (size : Pc alg → ℕ) (t : Thread) (p : Pc alg) (s u : System alg) : Type 0 where
    pub other_at : at_pc alg u (partner t) ≡ at_pc alg s (partner t)
    pub falls : size (at_pc alg u t) < size p

  scoped-runs :
      (t : Thread) (s : System alg) (l : alg.Local) (a : Action alg.Local)
      → alg.next l ≡ a
      → holds (acquire l) ≡ true
      → scoped_lock alg t s a ≢ none
  unfolding scoped_lock
  scoped-runs t s l (lock first k) n h e = absurd (ground (arith, law.locks l k first n, h))
  scoped-runs t s l (lock second k) n h e = absurd (ground (arith, law.locks l k second n, h))
  scoped-runs t s l (try_lock m k j) n h e = elim (Option-cases (account alg s (name t m)).owner) [
    | inl f ↦ absurd (ground (arith, e, f))
    | inr (u, f) ↦ absurd (ground (arith, e, f))
  ]
  scoped-runs t s l (unlock m k) n h e = absurd (ground arith)
  scoped-runs t s l done n h e = absurd (ground arith)

  scoped-IsStep :
      (t : Thread) (s u : System alg) (l : alg.Local) (a : Action alg.Local)
      → alg.next l ≡ a
      → holds (acquire l) ≡ true
      → scoped_lock alg t s a ≡ some u
      → IsStep held t (acquire l) s u
  unfolding scoped_lock
  scoped-IsStep t s u l (lock first k) n h e = absurd (ground (arith, law.locks l k first n, h))
  scoped-IsStep t s u l (lock second k) n h e = absurd (ground (arith, law.locks l k second n, h))
  scoped-IsStep one s u l (try_lock first k j) n h e =
      ground (arith, law.tries l k j first n, moves.tries l k j first n, e, h)
  scoped-IsStep one s u l (try_lock second k j) n h e =
      ground (arith, law.tries l k j second n, moves.tries l k j second n, e, h)
  scoped-IsStep two s u l (try_lock first k j) n h e =
      ground (arith, law.tries l k j first n, moves.tries l k j first n, e, h)
  scoped-IsStep two s u l (try_lock second k j) n h e =
      ground (arith, law.tries l k j second n, moves.tries l k j second n, e, h)
  scoped-IsStep t s u l (unlock m k) n h e = ground (arith, moves.unlocks l k m n)
  scoped-IsStep t s u l done n h e = ground arith

  advance-held :
      (t : Thread) (s u : System alg) (p : Pc alg)
      → holds p ≡ true
      → advance alg t s p ≡ some u
      → IsStep held t p s u
  unfolding advance
  advance-held t s u begin h e = absurd (cc)
  advance-held t s u (acquire l) h e = scoped-IsStep t s u l (alg.next l) refl h e
  advance-held t s u p h e = ground arith

  advance-runs :
      (t : Thread) (s : System alg) (p : Pc alg) → holds p ≡ true → advance alg t s p ≢ none
  unfolding advance
  advance-runs t s begin h e = absurd (cc)
  advance-runs t s ended h e = absurd (cc)
  advance-runs t s (acquire l) h e = scoped-runs t s l (alg.next l) refl h e
  advance-runs t s p h e = absurd (ground arith)

  -- A mutex that the algorithm asks for is free if the other thread has none.
  asked_free :
      (t : Thread) (s : System alg) (l : alg.Local) (m : Turn)
      → Safe alg law s
      → at_pc alg s t ≡ acquire l
      → law.has m l ≡ false
      → holds (at_pc alg s (partner t)) ≡ false
      → (account alg s (name t m)).owner ≡ none
  asked_free one s l first i q free h = ground (arith, i.alice_owner, q, free, h)
  asked_free one s l second i q free h = ground (arith, i.bob_owner, q, free, h)
  asked_free two s l first i q free h = ground (arith, i.bob_owner, q, free, h)
  asked_free two s l second i q free h = ground (arith, i.alice_owner, q, free, h)

  module _ (t : Thread) (s : System alg) (i : Safe alg law s)
      (alone : holds (at_pc alg s (partner t)) ≡ false) where
    solo_scoped :
        (l : alg.Local) (a : Action alg.Local)
        → at_pc alg s t ≡ acquire l
        → alg.next l ≡ a
        → (scoped_lock alg t s a ≢ none)
          × ((u : System alg) → scoped_lock alg t s a ≡ some u → IsStep left t (acquire l) s u)
    unfolding scoped_lock
    solo_scoped l (lock m k) q n =
        let free = asked_free t s l m i q (law.locks l k m n).0 alone in
        (λ e. ground (arith, free, e), λ u e. ground (arith, free, e, moves.locks l k m n))
    solo_scoped l (try_lock m k j) q n =
        let free = asked_free t s l m i q (law.tries l k j m n).0 alone in
        (λ e. ground (arith, free, e), λ u e. ground (arith, free, e, moves.tries l k j m n))
    solo_scoped l (unlock m k) q n =
        (λ e. ground (arith, e), λ u e. ground (arith, e, moves.unlocks l k m n))
    solo_scoped l done q n = (λ e. ground (arith, e), λ u e. ground (arith, e))

    solo :
        (p : Pc alg)
        → at_pc alg s t ≡ p
        → (p ≡ ended)
          ⊎ ((advance alg t s p ≢ none)
              × ((u : System alg) → advance alg t s p ≡ some u → IsStep left t p s u))
    unfolding advance
    solo ended q = inl refl
    solo (acquire l) q = inr (solo_scoped l (alg.next l) q refl)
    solo begin q = inr (λ e. ground (arith, e), λ u e. ground (arith, e))
    solo p q = inr (λ e. ground (arith, e), λ u e. ground (arith, e))

  pub held-IsStep :
      (t : Thread) (s : System alg)
      → (holds (at_pc alg s t) ≡ false)
        ⊎ ((u : System alg) × (advance alg t s (at_pc alg s t) ≡ some u)
            × IsStep held t (at_pc alg s t) s u)
  held-IsStep t s = elim (Bool-cases (holds (at_pc alg s t))) [
    | inr free ↦ inl free
    | inl h ↦ elim (Option-cases (advance alg t s (at_pc alg s t))) [
      | inl stuck ↦ absurd (advance-runs t s (at_pc alg s t) h stuck)
      | inr (u, e) ↦ inr (u, e, advance-held t s u (at_pc alg s t) h e)
    ]
  ]

  pub solo-IsStep :
      (t : Thread) (s : System alg)
      → Reach alg s
      → holds (at_pc alg s (partner t)) ≡ false
      → (at_pc alg s t ≡ ended)
        ⊎ ((u : System alg) × (advance alg t s (at_pc alg s t) ≡ some u)
            × IsStep left t (at_pc alg s t) s u)
  solo-IsStep t s r alone = elim (solo t s (Reach-Safe alg law r) alone (at_pc alg s t) refl) [
    | inl over ↦ inl over
    | inr (runs, falls) ↦ elim (Option-cases (advance alg t s (at_pc alg s t))) [
      | inl stuck ↦ absurd (runs stuck)
      | inr (u, e) ↦ inr (u, e, falls u e)
    ]
  ]
