-- ===== src/Transfer/Broken/Ends.antt =====
-- How the two threads of case 02's broken process can come to a stop: in one of two systems.
use std.Equiv.{}
use std.Univalence.{iso_to_path}
use mathlib.Core.Logic.{∥∥₁_elim}
use mathlib.Core.HLevel.{Σ_prop_path}
use systems_postmortems.Prelude.{
  ℕ, zero, suc, ◌≡◌, ◌⊎◌, ◌↔◌, Bool-cases, refl, sym, ◌∙◌, ap, inl, inr, none, some, Bool, true,
  false, List, [], ◌∷◌, ◌++◌, subst,
}
use systems_postmortems.Prelude.Int.{pos, ◌+ℤ◌, ◌-ℤ◌}
use systems_postmortems.Transfer.Broken.{
  alice, bob, transfer, Thread, one, two, second, Pc, block, ended, System, advance,
}
use systems_postmortems.Transfer.Broken.Process.{
  Process, Actor, thread, asleep, join_one, Reach, start, start_process, run, Reach-run, is_ended,
}
use systems_postmortems.Transfer.Broken.Locking.{Inv}
use systems_postmortems.Transfer.Broken.Reachable.{Safe, Reach-Safe}
use systems_postmortems.Transfer.Broken.Deadlock.{stuck_cases}

-- What the threads have left in a run, when neither can make a step.
abbrev pub IsEnd : System → Type 0
IsEnd s =
    ∥ ((p : Process) × Reach p × (p.sys ≡ s)) ∥₁
    × (advance one s s.ones.pc ≡ none)
    × (advance two s s.twos.pc ≡ none)

abbrev pub End : Type 0
End = (s : System) × IsEnd s

System-set : IsSet System
System-set = hlevel

IsEnd-prop : (s : System) → IsProp (IsEnd s)
IsEnd-prop s = hlevel

-- Where the threads stand determines everything else.
Inv-unique : (p q : Pc) (s u : System) → Inv p q s → Inv p q u → s ≡ u
Inv-unique p q s u x y = λ i. record {
  alices = record {
    owner = (x.alice_owner ∙ sym y.alice_owner) i;
    balance = (x.alice_balance ∙ sym y.alice_balance) i;
  };
  bobs = record {
    owner = (x.bob_owner ∙ sym y.bob_owner) i;
    balance = (x.bob_balance ∙ sym y.bob_balance) i;
  };
  ones = record {
    pc = (x.at_one.0 ∙ sym y.at_one.0) i;
    state = record {
      label = (x.at_one.1 ∙ sym y.at_one.1) i;
      holding = (x.at_one.2 ∙ sym y.at_one.2) i;
      waiting = (x.at_one.3 ∙ sym y.at_one.3) i;
    };
  };
  twos = record {
    pc = (x.at_two.0 ∙ sym y.at_two.0) i;
    state = record {
      label = (x.at_two.1 ∙ sym y.at_two.1) i;
      holding = (x.at_two.2 ∙ sym y.at_two.2) i;
      waiting = (x.at_two.3 ∙ sym y.at_two.3) i;
    };
  };
}

-- Both transfers are complete.
abbrev pub completed : System
completed = record {
  alices = record { owner = none; balance = pos 1000 };
  bobs = record { owner = none; balance = pos 1000 };
  ones = record {
    pc = ended;
    state = record { label = some (transfer alice bob); holding = none; waiting = none };
  };
  twos = record {
    pc = ended;
    state = record { label = some (transfer bob alice); holding = none; waiting = none };
  };
}

-- Each thread waits for the lock that the other one owns.
abbrev pub deadlocked : System
deadlocked = record {
  alices = record { owner = some one; balance = pos 1000 };
  bobs = record { owner = some two; balance = pos 1000 };
  ones = record {
    pc = block second;
    state = record { label = some (transfer alice bob); holding = some alice; waiting = some bob };
  };
  twos = record {
    pc = block second;
    state = record { label = some (transfer bob alice); holding = some bob; waiting = some alice };
  };
}

times : ℕ → Thread → List Actor
times zero t = []
times (suc n) t = thread t ∷ times n t

at_end : System → Process
at_end s = record { sys = s; dog = asleep; at = join_one }

completed-Reach : Reach (at_end completed)
unfolding run advance ◌+ℤ◌ ◌-ℤ◌ times at_end
completed-Reach = Reach-run (times 18 one ++ times 18 two) start_process _ start refl

deadlocked-Reach : Reach (at_end deadlocked)
unfolding run advance times at_end
deadlocked-Reach = Reach-run (times 7 one ++ times 7 two) start_process _ start refl

end_of : Bool → End
unfolding advance at_end
end_of true = (completed, (∣ (at_end completed, completed-Reach, refl) ∣₁, refl, refl))
end_of false = (deadlocked, (∣ (at_end deadlocked, deadlocked-Reach, refl) ∣₁, refl, refl))

has_completed : System → Bool
has_completed s = is_ended s.ones.pc

at_pcs : {p q : Pc} (s : System) → Safe s → s.ones.pc ≡ p → s.twos.pc ≡ q → Inv p q s
at_pcs {p} {q} s i x y = subst (λ a. Inv a q s) x (subst (λ b. Inv s.ones.pc b s) y i)

only_end :
    (s : System)
    → Safe s
    → advance one s s.ones.pc ≡ none
    → advance two s s.twos.pc ≡ none
    → (end_of (has_completed s)).0 ≡ s
unfolding end_of has_completed at_end
only_end s i a b = elim (stuck_cases s.ones.pc s.twos.pc s i a b) [
  | inl (x, y) ↦
      ap (λ p. (end_of (is_ended p)).0) x
      ∙ Inv-unique ended ended completed s (Reach-Safe completed-Reach) (at_pcs s i x y)
  | inr (x, y) ↦
      ap (λ p. (end_of (is_ended p)).0) x
      ∙ Inv-unique (block second) (block second) deadlocked s (Reach-Safe deadlocked-Reach)
          (at_pcs s i x y)
]

has_completed-end_of : (b : Bool) → has_completed (end_of b).0 ≡ b
unfolding has_completed end_of
has_completed-end_of true = refl
has_completed-end_of false = refl

end_is : (s : System) → IsEnd s → (end_of (has_completed s)).0 ≡ s
end_is s (reached, a, b) =
    ∥∥₁_elim reached (System-set _ _) (λ (p, r, q). only_end s (subst Safe q (Reach-Safe r)) a b)

which_end : (s : System) → IsEnd s → (s ≡ completed) ⊎ (s ≡ deadlocked)
unfolding end_of
which_end s e = elim (Bool-cases (has_completed s)) [
  | inl h ↦ inl (sym (end_is s e) ∙ ap (λ b. (end_of b).0) h)
  | inr h ↦ inr (sym (end_is s e) ∙ ap (λ b. (end_of b).0) h)
]

-- The systems in which some run leaves the threads unable to make a step are the one in which both
-- transfers are complete, nothing is locked and both balances are 1000, and the one in which each
-- thread waits for the lock that the other one owns; and they are two, as an equation of types.
pub two_ends : ((s : System) → IsEnd s ↔ ((s ≡ completed) ⊎ (s ≡ deadlocked))) × (End ≡ Bool)
unfolding end_of has_completed
two_ends = (
  λ s. (
    which_end s,
    elim [
      | inl q ↦ subst IsEnd (sym q) (end_of true).1
      | inr q ↦ subst IsEnd (sym q) (end_of false).1
    ],
  ),
  iso_to_path (record {
    fun = λ e. has_completed e.0;
    inv = end_of;
    rinv = has_completed-end_of;
    linv = λ e. Σ_prop_path IsEnd-prop (end_is e.0 e.1);
  }),
)
