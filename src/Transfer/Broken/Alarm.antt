-- ===== src/Transfer/Broken/Alarm.antt =====
-- What a report of case 02's watchdog says, and of which states.
use mathlib.Core.Option.{some-injective}
use systems_postmortems.Prelude.{true, ◌≡◌, refl, ◌⊎◌, inl, inr, Option, none, some, arith, subst}
use systems_postmortems.Transfer.Broken.{
  Name, Label, alice, bob, transfer, second, Pc, begin, block, System,
}
use systems_postmortems.Transfer.Broken.Process.{
  Process, DogPc, asleep, at_a_holds, at_a_wants, at_b_holds, at_b_wants, at_test, at_a_label,
  at_b_label, printed, quiet, reported, Report, watchdog, verdict, Reach, start, later,
}
use systems_postmortems.Transfer.Broken.Locking.{Inv}
use systems_postmortems.Transfer.Broken.Reachable.{
  Safe, Reach-Safe, Move, threads, watches, mains, Move-step,
}
use systems_postmortems.Transfer.Broken.Deadlock.{IsDeadlock}
use systems_postmortems.Transfer.Broken.Watchdog.{cycle}
use systems_postmortems.Transfer.Broken.Sights.{noted, arrived, passed, Found, Sees, Sees-advance}

-- What each load reads, by where the threads are.
load_holds :
    (p q : Pc) (s : System) (a : Name)
    → Inv p q s
    → s.ones.holding ≡ some a
    → (a ≡ alice) × (noted p ≡ true)
load_holds begin q s a i e = ground arith
load_holds p q s a i e = ground arith

load_wants :
    (p q : Pc) (s : System) (b : Name)
    → Inv p q s
    → noted p ≡ true
    → s.ones.waiting ≡ some b
    → (b ≡ bob) × (arrived p ≡ true)
load_wants begin q s b i h e = ground arith
load_wants p q s b i h e = ground arith

load_holds_two :
    (p q : Pc) (s : System) (c : Name)
    → Inv p q s
    → s.twos.holding ≡ some c
    → (c ≡ bob) × (noted q ≡ true)
load_holds_two p begin s c i e = ground arith
load_holds_two p q s c i e = ground arith

load_wants_two :
    (p q : Pc) (s : System) (d : Name)
    → Inv p q s
    → arrived p ≡ true
    → noted q ≡ true
    → s.twos.waiting ≡ some d
    → (d ≡ alice)
      × (arrived q ≡ true)
      × (((p ≡ block second) × (q ≡ block second)) ⊎ (passed p ≡ true))
load_wants_two begin q s d i h k e = ground arith
load_wants_two p q s d i h k e = ground arith

Sees-a_holds : (a : Option Name) (s : System) → Safe s → s.ones.holding ≡ a → Sees (at_a_wants a) s
Sees-a_holds none s i e = tt
Sees-a_holds (some a) s i e = load_holds s.ones.pc s.twos.pc s a i e

Sees-a_wants :
    (a b : Option Name) (s : System)
    → Safe s
    → s.ones.waiting ≡ b
    → Sees (at_a_wants a) s
    → Sees (at_b_holds a b) s
Sees-a_wants (some a) (some b) s i e (ea, h) =
    let (eb, k) = load_wants s.ones.pc s.twos.pc s b i h e in (ea, eb, k)
Sees-a_wants none b s i e h = tt
Sees-a_wants (some a) none s i e h = tt

Sees-b_holds :
    (a b c : Option Name) (s : System)
    → Safe s
    → s.twos.holding ≡ c
    → Sees (at_b_holds a b) s
    → Sees (at_b_wants a b c) s
Sees-b_holds (some a) (some b) (some c) s i e (ea, eb, h) =
    let (ec, k) = load_holds_two s.ones.pc s.twos.pc s c i e in (ea, eb, ec, h, k)
Sees-b_holds none b c s i e h = tt
Sees-b_holds (some a) none c s i e h = tt
Sees-b_holds (some a) (some b) none s i e h = tt

Sees-b_wants :
    (a b c d : Option Name) (s : System)
    → Safe s
    → s.twos.waiting ≡ d
    → Sees (at_b_wants a b c) s
    → Sees (at_test a b c d) s
Sees-b_wants (some a) (some b) (some c) (some d) s i e (ea, eb, ec, h, k) =
    let (ed, l, f) = load_wants_two s.ones.pc s.twos.pc s d i h k e in
    let found : Found s = elim f [
      | inl (x, y) ↦ inl (record { one_waits = x; two_waits = y })
      | inr past ↦ inr past
    ] in
    (ea, eb, ec, ed, l, found)
Sees-b_wants none b c d s i e h = tt
Sees-b_wants (some a) none c d s i e h = tt
Sees-b_wants (some a) (some b) none d s i e h = tt
Sees-b_wants (some a) (some b) (some c) none s i e h = tt

-- The labels are stored before the first lock is asked for.
labels :
    (p q : Pc) (s : System)
    → Inv p q s
    → arrived p ≡ true
    → arrived q ≡ true
    → (s.ones.label ≡ some (transfer alice bob)) × (s.twos.label ≡ some (transfer bob alice))
labels begin q s i h k = absurd (cc)
labels p q s i h k = ground arith

Found-arrived : (s : System) → Found s → arrived s.ones.pc ≡ true
Found-arrived s (inl d) = rw d.one_waits refl
Found-arrived s (inr h) = passed-arrived s.ones.pc h
  where
    passed-arrived : (p : Pc) → passed p ≡ true → arrived p ≡ true
    passed-arrived p h = ground arith

Sees-verdict :
    (a b c d : Option Name) (s : System) → Sees (at_test a b c d) s → Sees (verdict a b c d) s
unfolding verdict
Sees-verdict (some a) (some b) (some c) (some d) s h = h
Sees-verdict none b c d s h = tt
Sees-verdict (some a) none c d s h = tt
Sees-verdict (some a) (some b) none d s h = tt
Sees-verdict (some a) (some b) (some c) none s h = tt

Sees-a_label :
    (a b c d : Name) (s : System)
    → Safe s
    → Sees (at_a_label a b c d) s
    → Sees (at_b_label s.ones.label a b c d) s
Sees-a_label a b c d s i (ea, eb, ec, ed, k, f) =
    ((labels s.ones.pc s.twos.pc s i (Found-arrived s f) k).0, ea, eb, ec, ed, k, f)

Sees-b_label :
    (l : Option Label) (a b c d : Name) (s : System)
    → Safe s
    → Sees (at_b_label l a b c d) s
    → Sees
        (printed (record {
          a_label = l;
          b_label = s.twos.label;
          a_holds = a;
          a_wants = b;
          b_holds = c;
          b_wants = d;
        }))
        s
Sees-b_label l a b c d s i (el, ea, eb, ec, ed, k, f) =
    let y = (labels s.ones.pc s.twos.pc s i (Found-arrived s f) k).1 in
    (
      λ j. reported (record {
        a_label = el j;
        b_label = y j;
        a_holds = ea j;
        a_wants = eb j;
        b_holds = ec j;
        b_wants = ed j;
      }),
      f,
    )

Sees-watchdog :
    (d : DogPc) (s : System) (e : DogPc) → Safe s → watchdog s d ≡ some e → Sees d s → Sees e s
unfolding watchdog
Sees-watchdog asleep s e i w h = subst (λ x. Sees x s) (some-injective _ e w) tt
Sees-watchdog at_a_holds s e i w h =
    subst (λ x. Sees x s) (some-injective _ e w) (Sees-a_holds s.ones.holding s i refl)
Sees-watchdog (at_a_wants a) s e i w h =
    subst (λ x. Sees x s) (some-injective _ e w) (Sees-a_wants a s.ones.waiting s i refl h)
Sees-watchdog (at_b_holds a b) s e i w h =
    subst (λ x. Sees x s) (some-injective _ e w) (Sees-b_holds a b s.twos.holding s i refl h)
Sees-watchdog (at_b_wants a b c) s e i w h =
    subst (λ x. Sees x s) (some-injective _ e w) (Sees-b_wants a b c s.twos.waiting s i refl h)
Sees-watchdog (at_test a b c d) s e i w h =
    subst (λ x. Sees x s) (some-injective _ e w) (Sees-verdict a b c d s h)
Sees-watchdog (at_a_label a b c d) s e i w h =
    subst (λ x. Sees x s) (some-injective _ e w) (Sees-a_label a b c d s i h)
Sees-watchdog (at_b_label l a b c d) s e i w h =
    subst (λ x. Sees x s) (some-injective _ e w) (Sees-b_label l a b c d s i h)
Sees-watchdog (printed r) s e i w h = subst (λ x. Sees x s) (some-injective _ e w) h
Sees-watchdog quiet s e i w h = absurd (cc)
Sees-watchdog (reported r) s e i w h = absurd (cc)

Sees-Move : {p q : Process} → Move p q → Safe p.sys → Sees p.dog p.sys → Sees q.dog q.sys
Sees-Move {p} {q} (threads t e same _) i h =
    subst (λ d. Sees d q.sys) same (Sees-advance p.dog t p.sys q.sys i e h)
Sees-Move {p} {q} (watches same _ e) i h =
    subst (λ s. Sees q.dog s) same (Sees-watchdog p.dog p.sys q.dog i e h)
Sees-Move {p} {q} (mains same dogs _) i h =
    subst (λ s. Sees q.dog s) same (subst (λ d. Sees d p.sys) dogs h)

pub Reach-Sees : {p : Process} → Reach p → Sees p.dog p.sys
Reach-Sees start = tt
Reach-Sees (later {p} {q} r a e) = Sees-Move (Move-step a p q e) (Reach-Safe r) (Reach-Sees r)

-- Whenever the watchdog has reported, under every interleaving: the report is the cycle of alice and
-- bob with both labels, and either both threads wait for their second lock, or thread one has got its
-- second lock since, so that there is no deadlock and the report is a false alarm.
pub reported-Found :
    {p : Process} (r : Report)
    → Reach p
    → p.dog ≡ reported r
    → (reported r ≡ cycle) × (IsDeadlock p.sys ⊎ (passed p.sys.ones.pc ≡ true))
reported-Found {p} r reach e = subst (λ d. Sees d p.sys) e (Reach-Sees reach)
