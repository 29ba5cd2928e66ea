-- ===== src/Transfer/Fixed/Exclusion.antt =====
-- What holds of the locks and balances in every reachable state of fixed.cpp, for an algorithm that
-- keeps the contract of std::lock.
use systems_postmortems.Transfer.Fixed.Contract.{IsLockAlgorithm}
use systems_postmortems.Prelude.{
  ℕ, Bool, true, false, ◌&&◌, ◌≡◌, refl, subst, sym, Option, none, some, arith,
}
use systems_postmortems.Prelude.Int.{ℤ, pos, ◌+ℤ◌, ◌-ℤ◌}
use systems_postmortems.Transfer.Broken.{Thread, one, two, Turn, first, second}
use systems_postmortems.Transfer.Fixed.{
  Action, lock, try_lock, unlock, done, Algorithm, other, Pc, begin, acquire, doze, debit, credit,
  store_debit, store_credit, unlock_first, unlock_second, ended, System, scoped_lock, advance,
  initial, at_pc, Reach, start, later, Report, main,
}

abbrev is_turn : Turn → Turn → Bool
is_turn first first = true
is_turn second second = true
is_turn _ _ = false

-- The owner of a lock that thread `one` owns if `x`, and thread `two` if `y`.
abbrev pub owner_of : Bool → Bool → Option Thread
owner_of true y = some one
owner_of false true = some two
owner_of false false = none

module _ (alg : Algorithm) (law : IsLockAlgorithm alg) where
  -- Which of its two locks a thread at `p` owns.
  abbrev pub owns : Turn → Pc alg → Bool
  owns m begin = false
  owns m (acquire l) = law.has m l
  owns m unlock_second = is_turn m (other alg.released_first)
  owns m ended = false
  owns m _ = true

  -- What a thread at `p` has taken from its `from`, and given to its `to`.
  abbrev pub debited : Pc alg → ℕ
  debited credit = 10
  debited (store_credit v) = 10
  debited unlock_first = 10
  debited unlock_second = 10
  debited ended = 10
  debited _ = 0

  abbrev pub credited : Pc alg → ℕ
  credited unlock_first = 10
  credited unlock_second = 10
  credited ended = 10
  credited _ = 0

  -- What a thread at `p` has loaded of a balance `b` and not yet stored; of its `from`, and of its
  -- `to`.
  abbrev pub loads_from : Pc alg → ℤ → ℤ
  loads_from (store_debit v) b = v
  loads_from _ b = b

  abbrev pub loads_to : Pc alg → ℤ → ℤ
  loads_to (store_credit v) b = v
  loads_to _ b = b

  loads_from-free : (p : Pc alg) (b : ℤ) → owns first p ≡ false → loads_from p b ≡ b
  loads_from-free p b h = ground arith

  loads_to-free : (p : Pc alg) (b : ℤ) → owns second p ≡ false → loads_to p b ≡ b
  loads_to-free p b h = ground arith

  -- With the threads at `p` and `q`.
  pub record Inv (p q : Pc alg) (s : System alg) : Type 0 where
    pub at_one : s.ones ≡ p
    pub at_two : s.twos ≡ q
    pub alice_owner : s.alices.owner ≡ owner_of (owns first p) (owns second q)
    pub bob_owner : s.bobs.owner ≡ owner_of (owns second p) (owns first q)
    pub alice_apart : (owns first p && owns second q) ≡ false
    pub bob_apart : (owns second p && owns first q) ≡ false
    pub alice_balance : s.alices.balance ≡ pos 1000 -ℤ pos (debited p) +ℤ pos (credited q)
    pub bob_balance : s.bobs.balance ≡ pos 1000 -ℤ pos (debited q) +ℤ pos (credited p)
    pub one_from : loads_from p s.alices.balance ≡ s.alices.balance
    pub one_to : loads_to p s.bobs.balance ≡ s.bobs.balance
    pub two_from : loads_from q s.bobs.balance ≡ s.bobs.balance
    pub two_to : loads_to q s.alices.balance ≡ s.alices.balance

  Inv-scoped_one :
      (l : alg.Local) (a : Action alg.Local) (q : Pc alg) (s t : System alg)
      → alg.next l ≡ a
      → Inv (acquire l) q s
      → scoped_lock alg one s a ≡ some t
      → Inv t.ones q t
  unfolding scoped_lock
  Inv-scoped_one l (lock first k) q s t n i e = ground (arith, law.locks l k first n)
  Inv-scoped_one l (lock second k) q s t n i e = ground (arith, law.locks l k second n)
  Inv-scoped_one l (try_lock first k j) q s t n i e = ground (arith, law.tries l k j first n)
  Inv-scoped_one l (try_lock second k j) q s t n i e = ground (arith, law.tries l k j second n)
  Inv-scoped_one l (unlock first k) q s t n i e = ground (arith, law.unlocks l k first n)
  Inv-scoped_one l (unlock second k) q s t n i e = ground (arith, law.unlocks l k second n)
  Inv-scoped_one l done q s t n i e = ground (arith, law.returns l first n, law.returns l second n)

  Inv-scoped_two :
      (l : alg.Local) (a : Action alg.Local) (p : Pc alg) (s t : System alg)
      → alg.next l ≡ a
      → Inv p (acquire l) s
      → scoped_lock alg two s a ≡ some t
      → Inv p t.twos t
  unfolding scoped_lock
  Inv-scoped_two l (lock first k) p s t n i e = ground (arith, law.locks l k first n)
  Inv-scoped_two l (lock second k) p s t n i e = ground (arith, law.locks l k second n)
  Inv-scoped_two l (try_lock first k j) p s t n i e = ground (arith, law.tries l k j first n)
  Inv-scoped_two l (try_lock second k j) p s t n i e = ground (arith, law.tries l k j second n)
  Inv-scoped_two l (unlock first k) p s t n i e = ground (arith, law.unlocks l k first n)
  Inv-scoped_two l (unlock second k) p s t n i e = ground (arith, law.unlocks l k second n)
  Inv-scoped_two l done p s t n i e = ground (arith, law.returns l first n, law.returns l second n)

  Inv-one :
      (p q : Pc alg) (s t : System alg) → Inv p q s → advance alg one s p ≡ some t → Inv t.ones q t
  unfolding advance ◌+ℤ◌ ◌-ℤ◌
  Inv-one begin q s t i e = ground (arith, law.enters first, law.enters second)
  Inv-one (acquire l) q s t i e = Inv-scoped_one l (alg.next l) q s t refl i e
  Inv-one p q s t i e = ground arith

  Inv-two :
      (p q : Pc alg) (s t : System alg) → Inv p q s → advance alg two s q ≡ some t → Inv p t.twos t
  unfolding advance ◌+ℤ◌ ◌-ℤ◌
  Inv-two p begin s t i e = ground (arith, law.enters first, law.enters second)
  Inv-two p (acquire l) s t i e = Inv-scoped_two l (alg.next l) p s t refl i e
  Inv-two p q s t i e = ground arith

  abbrev pub Safe : System alg → Type 0
  Safe s = Inv s.ones s.twos s

  Safe-advance :
      (t : Thread) (s u : System alg) → Safe s → advance alg t s (at_pc alg s t) ≡ some u → Safe u
  Safe-advance one s u i e =
      let j = Inv-one s.ones s.twos s u i e in subst (λ q. Inv u.ones q u) (sym j.at_two) j
  Safe-advance two s u i e =
      let j = Inv-two s.ones s.twos s u i e in subst (λ p. Inv p u.twos u) (sym j.at_one) j

  Safe-initial : Safe (initial alg)
  unfolding ◌+ℤ◌ ◌-ℤ◌
  Safe-initial = ground arith

  pub Reach-Safe : {s : System alg} → Reach alg s → Safe s
  Reach-Safe start = Safe-initial
  Reach-Safe (later {s} {u} r t e) = Safe-advance t s u (Reach-Safe r) e

  -- Between the constructor and the destructor of scoped_lock.
  abbrev pub is_inside : Pc alg → Bool
  is_inside doze = true
  is_inside debit = true
  is_inside credit = true
  is_inside (store_debit v) = true
  is_inside (store_credit v) = true
  is_inside unlock_first = true
  is_inside _ = false

  inside-owns : (p : Pc alg) → is_inside p ≡ true → (owns first p ≡ true) × (owns second p ≡ true)
  inside-owns p h = ground arith

  -- For an algorithm that keeps the contract: in every reachable state, a thread between the
  -- constructor and the destructor of its scoped_lock owns both mutexes, and no other thread is there.
  pub inside-owner :
      {s : System alg} (t : Thread)
      → Reach alg s
      → is_inside (at_pc alg s t) ≡ true
      → (s.alices.owner ≡ some t)
        × (s.bobs.owner ≡ some t)
        × ((is_inside s.ones && is_inside s.twos) ≡ false)
  inside-owner {s} one r h =
      let i = Reach-Safe r in
      ground
        (arith, i.alice_owner, i.bob_owner, i.alice_apart, inside-owns s.ones h, inside-owns s.twos)
  inside-owner {s} two r h =
      let i = Reach-Safe r in
      ground (
        arith,
        i.alice_owner,
        i.bob_owner,
        i.alice_apart,
        i.bob_apart,
        inside-owns s.twos h,
        inside-owns s.ones,
      )

  main-ended :
      (s : System alg) (o : Report alg)
      → main alg s ≡ some o
      → (s.ones ≡ ended)
        × (s.twos ≡ ended)
        × (o
            ≡ record { alice_balance = s.alices.balance; bob_balance = s.bobs.balance; status = 0 })
  unfolding main
  main-ended s o e = ground arith

  -- For an algorithm that keeps the contract: whenever `main` returns, under every interleaving, both
  -- balances are 1000 and it returns 0.
  pub main-balances :
      {s : System alg} {o : Report alg}
      → Reach alg s
      → main alg s ≡ some o
      → o ≡ record { alice_balance = pos 1000; bob_balance = pos 1000; status = 0 }
  unfolding ◌+ℤ◌ ◌-ℤ◌
  main-balances {s} {o} r e =
      let i = Reach-Safe r in
      let (a, b, report) = main-ended s o e in
      ground (arith, a, b, report, i.alice_balance, i.bob_balance)
