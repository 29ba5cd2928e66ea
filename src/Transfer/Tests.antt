-- ===== src/Transfer/Tests.antt =====
-- Schedules of case 02, and its theorems at the states that they reach.
use systems_postmortems.Prelude.{
  ◌↔◌, ℕ, ◌≡◌, refl, ◌⊎◌, none, some, List, [], ◌∷◌, ◌++◌, true, false,
}
use systems_postmortems.Prelude.Int.{pos, ◌+ℤ◌, ◌-ℤ◌, ◌≤ℤ◌}
use systems_postmortems.Transfer.Broken.{
  alice, bob, transfer, Thread, one, two, first, second, Pc, block, ended, Local, System, advance,
  initial,
}
use systems_postmortems.Transfer.Broken.Process.{
  Process, DogPc, asleep, at_b_holds, quiet, Actor, thread, dog, join_one, status, step, run, Reach,
  start, start_process, Reach-run,
}
use systems_postmortems.Transfer.Broken.Locking.{owns}
use systems_postmortems.Transfer.Broken.Reachable.{exclusion, conservation}
use systems_postmortems.Transfer.Broken.Deadlock.{IsDeadlock}
use systems_postmortems.Transfer.Broken.Doom.{IsDoomed, Later, now, IsDoomed-forever}
use systems_postmortems.Transfer.Broken.Escape.{Returns, return_iff}
use systems_postmortems.Transfer.Broken.Sights.{passed}
use systems_postmortems.Transfer.Broken.Alarm.{reported-Found}
use systems_postmortems.Transfer.Broken.Watchdog.{cycle}
use systems_postmortems.Transfer.Broken.Fate.{missed, left, fate}

abbrev times : ℕ → Actor → List Actor
times ℕ.zero a = []
times (ℕ.suc n) a = a ∷ times n a

-- Up to the lock() of the second TracedLock.
abbrev half : Thread → List Actor
half t = times 7 (thread t)

abbrev waiting_one : Local
waiting_one = record {
  pc = block second;
  state = record { label = some (transfer alice bob); holding = some alice; waiting = some bob };
}

abbrev waiting_two : Local
waiting_two = record {
  pc = block second;
  state = record { label = some (transfer bob alice); holding = some bob; waiting = some alice };
}

abbrev crossed : System
crossed = record {
  alices = record { owner = some one; balance = pos 1000 };
  bobs = record { owner = some two; balance = pos 1000 };
  ones = waiting_one;
  twos = waiting_two;
}

-- Deadlocked, with the watchdog still asleep, and with the watchdog gone.
abbrev deadlocked : DogPc → Process
deadlocked d = record { sys = crossed; dog = d; at = join_one }

asleep-Reach : Reach (deadlocked asleep)
unfolding run advance
asleep-Reach = Reach-run (half one ++ half two) start_process _ start refl

crossed-IsDeadlock : IsDeadlock crossed
crossed-IsDeadlock = record { one_waits = refl; two_waits = refl }

IsDoomed-forever_example :
    IsDoomed crossed
    × (join_one ≡ join_one)
    × (crossed.alices.balance ≡ pos 1000)
    × (crossed.bobs.balance ≡ pos 1000)
    × ((status asleep join_one ≡ none) ⊎ (status asleep join_one ≡ some 1))
IsDoomed-forever_example =
    IsDoomed-forever {p = deadlocked asleep} {q = deadlocked asleep} asleep-Reach
      (record { one_half = refl; two_half = refl }) now

return_iff_example :
    ((q : Process) × Later (deadlocked asleep) q × Returns q) ↔ (¬ (IsDoomed crossed))
return_iff_example = return_iff {p = deadlocked asleep} asleep-Reach refl

-- The watchdog has made two loads before the threads began.
early-Reach : Reach (deadlocked (at_b_holds none none))
unfolding run advance
early-Reach = Reach-run (times 3 dog ++ (half one ++ half two)) start_process _ start refl

fate_example :
    ((missed (at_b_holds none none) ≡ false)
      × (run (left (at_b_holds none none)) (deadlocked (at_b_holds none none))
          ≡ some (deadlocked cycle))
      × (status cycle join_one ≡ some 1))
    ⊎ ((missed (at_b_holds none none) ≡ true)
        × (run (left (at_b_holds none none)) (deadlocked (at_b_holds none none))
            ≡ some (deadlocked quiet))
        × (status quiet join_one ≡ none)
        × ((a : Actor) → step a (deadlocked quiet) ≡ none))
fate_example = fate {p = deadlocked (at_b_holds none none)} early-Reach crossed-IsDeadlock

-- Thread one alone, after the store of its debit.
abbrev paying : Process
paying = record {
  sys = record {
    alices = record { owner = some one; balance = pos 990 };
    bobs = record { owner = some one; balance = pos 1000 };
    ones = record {
      pc = Pc.credit;
      state = record { label = some (transfer alice bob); holding = some alice; waiting = none };
    };
    twos = initial.twos;
  };
  dog = asleep;
  at = join_one;
}

paying-Reach : Reach paying
unfolding run advance ◌-ℤ◌
paying-Reach = Reach-run (times 12 (thread one)) start_process _ start refl

exclusion_example :
    (paying.sys.alices.owner ≡ some one)
    × (paying.sys.bobs.owner ≡ some one)
    × (owns first paying.sys.twos.pc ≡ false)
    × (owns second paying.sys.twos.pc ≡ false)
exclusion_example = exclusion one paying-Reach refl

conservation_example :
    (pos 990 +ℤ pos 1000 +ℤ pos 10 ≡ pos 2000)
    × (pos 990 ≤ℤ pos 990)
    × (pos 990 ≤ℤ pos 1010)
    × (pos 990 ≤ℤ pos 1000)
    × (pos 1000 ≤ℤ pos 1010)
conservation_example = conservation paying-Reach

-- A false alarm. The watchdog loads what thread one holds and wants; thread one completes its
-- transfer; thread two comes to its second lock, which is free; the watchdog loads what thread two
-- holds and wants, prints a cycle and ends the process.
alarm_schedule : List Actor
alarm_schedule = half one ++ (times 3 dog ++ (times 11 (thread one) ++ (half two ++ times 6 dog)))

abbrev alarmed : System
alarmed = record {
  alices = record { owner = none; balance = pos 990 };
  bobs = record { owner = some two; balance = pos 1010 };
  ones = record {
    pc = ended;
    state = record { label = some (transfer alice bob); holding = none; waiting = none };
  };
  twos = waiting_two;
}

false_alarm :
    Reach (record { sys = alarmed; dog = cycle; at = join_one })
    × (status cycle join_one ≡ some 1)
    × (s : System) × (advance two alarmed alarmed.twos.pc ≡ some s)
unfolding run advance ◌+ℤ◌ ◌-ℤ◌ alarm_schedule
false_alarm = (Reach-run alarm_schedule start_process _ start refl, refl, _, refl)

reported-Found_example :
    (◌≡◌ {A = DogPc} cycle cycle) × (IsDeadlock alarmed ⊎ (passed alarmed.ones.pc ≡ true))
reported-Found_example = reported-Found _ false_alarm.0 refl
