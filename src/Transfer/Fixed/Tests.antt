-- ===== src/Transfer/Fixed/Tests.antt =====
-- An algorithm that backs off, a run with it, and the theorems of fixed.cpp at its states.
use systems_postmortems.Prelude.{
  Bool, true, false, ◌&&◌, ◌≡◌, refl, some, none, List, [], ◌∷◌, arith,
}
use systems_postmortems.Prelude.Int.{pos, ◌+ℤ◌, ◌-ℤ◌}
use systems_postmortems.Transfer.Broken.{Thread, one, two, Turn, first, second}
use systems_postmortems.Transfer.Fixed.{
  Action, lock, try_lock, unlock, done, Algorithm, other, acquire, doze, ended, System, advance,
  initial, Reach, start, run, Reach-run, Report, main,
}
use systems_postmortems.Transfer.Fixed.Contract.{IsLockAlgorithm, IsProgressive}
use systems_postmortems.Transfer.Fixed.Steps.{Later}
use systems_postmortems.Transfer.Fixed.Finish.{can_return}
use systems_postmortems.Transfer.Fixed.Exclusion.{is_inside, inside-owner, main-balances}
use systems_postmortems.Transfer.Fixed.Progress.{stuck-returned}

-- It locks one, tries the other, and on failure gives the one back and starts with the other.
data Point : Type 0 where
  wants has_one gives : Turn → Point
  both : Point

abbrev next_action : Point → Action Point
next_action (wants m) = lock m (has_one m)
next_action (has_one m) = try_lock (other m) both (gives m)
next_action (gives m) = unlock m (wants (other m))
next_action both = done

abbrev backing_off : Algorithm
backing_off = record {
  Local = Point;
  enter = wants first;
  next = next_action;
  released_first = first;
}

abbrev has_at : Turn → Point → Bool
has_at m (wants k) = false
has_at first (has_one first) = true
has_at second (has_one second) = true
has_at first (gives first) = true
has_at second (gives second) = true
has_at m both = true
has_at _ _ = false

backing_off-IsLockAlgorithm : IsLockAlgorithm backing_off
backing_off-IsLockAlgorithm = record {
  has = has_at;
  enters = λ m. refl;
  locks = λ l k m e. ground arith;
  tries = λ l taken busy m e. ground arith;
  unlocks = λ l k m e. ground arith;
  returns = λ l m e. ground arith;
}

backing_off-IsProgressive : IsProgressive backing_off backing_off-IsLockAlgorithm
backing_off-IsProgressive = record {
  rank = elim [ wants m ↦ 2 | has_one m ↦ 1 | gives m ↦ 3 | both ↦ 0 ];
  patience = elim [ wants m ↦ 0 | has_one m ↦ 2 | gives m ↦ 1 | both ↦ 0 ];
  locks = λ l k m e. ground arith;
  tries = λ l taken busy m e. ground arith;
  unlocks = λ l k m e. ground arith;
}

-- Each takes its first lock; the second one fails, backs off and waits until the first one is done.
abbrev schedule : List Thread
schedule =
    one ∷ two ∷ one ∷ two ∷ two ∷ two ∷ one ∷ one ∷ one ∷ one ∷ one ∷ one ∷ one ∷ one ∷ one ∷ two
    ∷ two ∷ two ∷ two ∷ two ∷ two ∷ two ∷ two ∷ two ∷ two ∷ []

abbrev finished : System backing_off
finished = record {
  alices = record { owner = none; balance = pos 1000 };
  bobs = record { owner = none; balance = pos 1000 };
  ones = ended;
  twos = ended;
}

finished-Reach : Reach backing_off finished
unfolding run ◌+ℤ◌ ◌-ℤ◌
finished-Reach = Reach-run backing_off schedule (initial backing_off) finished start refl

-- One thread asleep with both locks, the other waiting for one of them.
abbrev sleeping : System backing_off
sleeping = record {
  alices = record { owner = some one; balance = pos 1000 };
  bobs = record { owner = some one; balance = pos 1000 };
  ones = doze;
  twos = acquire (wants first);
}

sleeping-Reach : Reach backing_off sleeping
unfolding run
sleeping-Reach =
    Reach-run backing_off (one ∷ one ∷ one ∷ one ∷ two ∷ []) (initial backing_off) sleeping start
      refl

abbrev outcome : Report backing_off
outcome = record {
  alice_balance = finished.alices.balance;
  bob_balance = finished.bobs.balance;
  status = 0;
}

main-balances_example :
    outcome ≡ record { alice_balance = pos 1000; bob_balance = pos 1000; status = 0 }
unfolding main
main-balances_example =
    main-balances backing_off backing_off-IsLockAlgorithm {o = outcome} finished-Reach refl

stuck-returned_example :
    main backing_off finished
    ≡ some (record { alice_balance = pos 1000; bob_balance = pos 1000; status = 0 })
unfolding advance
stuck-returned_example =
    stuck-returned backing_off backing_off-IsLockAlgorithm finished-Reach refl refl

inside-owner_example :
    (sleeping.alices.owner ≡ some one)
    × (sleeping.bobs.owner ≡ some one)
    × ((is_inside backing_off backing_off-IsLockAlgorithm doze
          && is_inside backing_off backing_off-IsLockAlgorithm (acquire (wants first)))
        ≡ false)
inside-owner_example = inside-owner backing_off backing_off-IsLockAlgorithm one sleeping-Reach refl

-- Each thread has its first mutex.
abbrev crossed : System backing_off
crossed = record {
  alices = record { owner = some one; balance = pos 1000 };
  bobs = record { owner = some two; balance = pos 1000 };
  ones = acquire (has_one first);
  twos = acquire (has_one first);
}

crossed-Reach : Reach backing_off crossed
unfolding run
crossed-Reach =
    Reach-run backing_off (one ∷ two ∷ one ∷ two ∷ []) (initial backing_off) crossed start refl

can_return_example :
    (u : System backing_off) × Later backing_off crossed u
    × (main backing_off u
        ≡ some (record { alice_balance = pos 1000; bob_balance = pos 1000; status = 0 }))
can_return_example =
    can_return backing_off backing_off-IsLockAlgorithm backing_off-IsProgressive crossed-Reach
