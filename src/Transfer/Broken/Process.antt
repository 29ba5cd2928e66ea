-- ===== src/Transfer/Broken/Process.antt =====
-- The whole process of cases/02-lock-order-inversion/broken.cpp: the two transfers, the watchdog and
-- `main`. The watchdog's sleep may end at any time. Each of its atomic loads is a step, and so is its
-- _Exit; what it prints goes with the load before.
use mathlib.Core.Option
use mathlib.Core.Option.{some-injective}
use systems_postmortems.Prelude.{
  List, [], ◌∷◌, ap, ◌∙◌, refl, subst, inl, inr, Option-cases, arith, ℕ, Bool, true, false, Option,
  none, some, ◌≡◌,
}
use systems_postmortems.Transfer.Broken.{
  Name, Thread, one, two, Pc, ended, Label, System, local, advance, initial,
}

-- The report: what the two threads hold and want. The printed cycle is `a_holds -> b_holds -> a_holds`.
pub record Report : Type 0 where
  pub a_label : Option Label
  pub b_label : Option Label
  pub a_holds : Name
  pub a_wants : Name
  pub b_holds : Name
  pub b_wants : Name

-- Where the watchdog stands, with what it has loaded.
pub data DogPc : Type 0 where
  asleep : DogPc
  at_a_holds : DogPc
  at_a_wants : (a_holds : Option Name) → DogPc
  at_b_holds : (a_holds a_wants : Option Name) → DogPc
  at_b_wants : (a_holds a_wants b_holds : Option Name) → DogPc
  at_test : (a_holds a_wants b_holds b_wants : Option Name) → DogPc
  at_a_label : (a_holds a_wants b_holds b_wants : Name) → DogPc
  at_b_label : (a_label : Option Label) (a_holds a_wants b_holds b_wants : Name) → DogPc
  printed : Report → DogPc  -- before _Exit
  quiet : DogPc
  reported : Report → DogPc

-- The test for `nullptr`.
unfoldable pub verdict : Option Name → Option Name → Option Name → Option Name → DogPc
verdict (some a) (some b) (some c) (some d) = at_a_label a b c d
verdict _ _ _ _ = quiet

unfoldable pub watchdog : System → DogPc → Option DogPc
unfolding verdict
watchdog s asleep = some at_a_holds
watchdog s at_a_holds = some (at_a_wants (local s one).holding)
watchdog s (at_a_wants a) = some (at_b_holds a (local s one).waiting)
watchdog s (at_b_holds a b) = some (at_b_wants a b (local s two).holding)
watchdog s (at_b_wants a b c) = some (at_test a b c (local s two).waiting)
watchdog s (at_test a b c d) = some (verdict a b c d)
watchdog s (at_a_label a b c d) = some (at_b_label (local s one).label a b c d)
watchdog s (at_b_label l a b c d) = some (
    printed (record {
      a_label = l;
      b_label = (local s two).label;
      a_holds = a;
      a_wants = b;
      b_holds = c;
      b_wants = d;
    }))
watchdog s (printed r) = some (reported r)
watchdog s quiet = none
watchdog s (reported r) = none

-- `main` after it has started the threads.
pub data MainPc : Type 0 where
  join_one join_two returned : MainPc

abbrev pub is_ended : Pc → Bool
is_ended ended = true
is_ended _ = false

unfoldable pub main : System → MainPc → Option MainPc
main s join_one = elim (is_ended (local s one).pc) [ true ↦ some join_two | false ↦ none ]
main s join_two = elim (is_ended (local s two).pc) [ true ↦ some returned | false ↦ none ]
main s returned = none

pub record Process : Type 0 where
  pub sys : System
  pub dog : DogPc
  pub at : MainPc

-- The exit status, once `main` has returned or the watchdog has called _Exit.
abbrev pub status : DogPc → MainPc → Option ℕ
status (reported r) m = some 1
status d returned = some 0
status d m = none

pub data Actor : Type 0 where
  thread : Thread → Actor
  dog main_thread : Actor

act : Actor → Process → Option Process
unfolding watchdog main
act (thread t) p = Option.map (λ s. record p { sys = s }) (advance t p.sys (local p.sys t).pc)
act dog p = Option.map (λ d. record p { dog = d }) (watchdog p.sys p.dog)
act main_thread p = Option.map (λ m. record p { at = m }) (main p.sys p.at)

-- Nothing runs after the exit.
unfoldable pub step : Actor → Process → Option Process
unfolding act
step a p = elim (status p.dog p.at) [ none ↦ act a p | some _ ↦ none ]

step-some : (a : Actor) (p q : Process) → step a p ≡ some q → act a p ≡ some q
unfolding step
step-some a p q e = running (status p.dog p.at) (act a p) e
  where
    running :
        (exit : Option ℕ) (o : Option Process)
        → elim exit [ none ↦ o | some _ ↦ none ] ≡ some q
        → o ≡ some q
    running none o h = h
    running (some n) o h = absurd (cc)

map-some :
    {X : Type 0} (put : X → Process) (q : Process) (o : Option X)
    → Option.map put o ≡ some q
    → (x : X) × (o ≡ some x) × (put x ≡ q)
map-some put q none h = absurd (cc)
map-some put q (some x) h = (x, refl, some-injective _ _ h)

-- What a step of each actor leaves as it is.
pub thread-some :
    (t : Thread) (p q : Process)
    → step (thread t) p ≡ some q
    → (advance t p.sys (local p.sys t).pc ≡ some q.sys) × (p.dog ≡ q.dog) × (p.at ≡ q.at)
unfolding act
thread-some t p q e =
    let (s, made, same) = map-some (λ s. record p { sys = s }) q _ (step-some (thread t) p q e) in
    (made ∙ ap (λ x. some x.sys) same, ap (λ x. x.dog) same, ap (λ x. x.at) same)

pub dog-some :
    (p q : Process)
    → step dog p ≡ some q
    → (p.sys ≡ q.sys) × (p.at ≡ q.at) × (watchdog p.sys p.dog ≡ some q.dog)
unfolding act
dog-some p q e =
    let (d, made, same) = map-some (λ d. record p { dog = d }) q _ (step-some dog p q e) in
    (ap (λ x. x.sys) same, ap (λ x. x.at) same, made ∙ ap (λ x. some x.dog) same)

pub main-some :
    (p q : Process)
    → step main_thread p ≡ some q
    → (p.sys ≡ q.sys) × (p.dog ≡ q.dog) × (main p.sys p.at ≡ some q.at)
unfolding act
main-some p q e =
    let (m, made, same) = map-some (λ m. record p { at = m }) q _ (step-some main_thread p q e) in
    (ap (λ x. x.sys) same, ap (λ x. x.dog) same, made ∙ ap (λ x. some x.at) same)

abbrev pub start_process : Process
start_process = record { sys = initial; dog = asleep; at = join_one }

pub data Reach : Process → Type 0 where
  start : Reach start_process
  later : {p q : Process} → Reach p → (a : Actor) → step a p ≡ some q → Reach q

-- A run in a given order.
unfoldable pub run : List Actor → Process → Option Process
unfolding step
run [] p = some p
run (a ∷ as_) p = elim (step a p) [ none ↦ none | some q ↦ run as_ q ]

pub Reach-run : (l : List Actor) (p q : Process) → Reach p → run l p ≡ some q → Reach q
unfolding run
Reach-run [] p q r e = subst Reach (some-injective p q e) r
Reach-run (a ∷ l) p q r e = elim (Option-cases (step a p)) [
  | inl stuck ↦ absurd (ground arith)
  | inr (u, s) ↦ Reach-run l u q (later r a s) (ground arith)
]
