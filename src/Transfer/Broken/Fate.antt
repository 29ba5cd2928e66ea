-- ===== src/Transfer/Broken/Fate.antt =====
-- How a deadlock of case 02's broken process ends.
use systems_postmortems.Prelude.{
  ◌≡◌, ◌⊎◌, inl, inr, refl, sym, Bool, true, false, ◌||◌, Option, none, some, List, [], ◌∷◌, subst,
}
use systems_postmortems.Transfer.Broken.{alice, bob, transfer, Label, Name, System}
use systems_postmortems.Transfer.Broken.Process.{
  Process, DogPc, asleep, at_a_holds, at_a_wants, at_b_holds, at_b_wants, at_test, at_a_label,
  at_b_label, printed, quiet, reported, Actor, dog, join_one, status, step, run, Reach, Reach-run,
}
use systems_postmortems.Transfer.Broken.Reachable.{Reach-Safe}
use systems_postmortems.Transfer.Broken.Deadlock.{IsDeadlock}
use systems_postmortems.Transfer.Broken.Watchdog.{
  cycle, watch, Published, Published-IsDeadlock, watch-Published, deadlock-at, hang,
}
use systems_postmortems.Transfer.Broken.Sights.{Sees}
use systems_postmortems.Transfer.Broken.Alarm.{Reach-Sees}

abbrev is_null : Option Name → Bool
is_null none = true
is_null (some a) = false

-- Whether the watchdog has loaded a null pointer.
abbrev pub missed : DogPc → Bool
missed (at_a_wants a) = is_null a
missed (at_b_holds a b) = is_null a || is_null b
missed (at_b_wants a b c) = is_null a || is_null b || is_null c
missed (at_test a b c d) = is_null a || is_null b || is_null c || is_null d
missed quiet = true
missed _ = false

-- The steps behind the test for null pointers.
abbrev report : (missed : Bool) → List Actor
report true = []
report false = dog ∷ dog ∷ dog ∷ []

-- The steps that the watchdog has left.
abbrev pub left : DogPc → List Actor
left asleep = watch
left at_a_holds = dog ∷ dog ∷ dog ∷ dog ∷ dog ∷ report false
left (at_a_wants a) = dog ∷ dog ∷ dog ∷ dog ∷ report (is_null a)
left (at_b_holds a b) = dog ∷ dog ∷ dog ∷ report (is_null a || is_null b)
left (at_b_wants a b c) = dog ∷ dog ∷ report (is_null a || is_null b || is_null c)
left (at_test a b c d) = dog ∷ report (is_null a || is_null b || is_null c || is_null d)
left (at_a_label a b c d) = dog ∷ dog ∷ dog ∷ []
left (at_b_label l a b c d) = dog ∷ dog ∷ []
left (printed r) = dog ∷ []
left _ = []

abbrev joining : System → DogPc → Process
joining s d = record { sys = s; dog = d; at = join_one }

abbrev Leads : (s : System) (from to : DogPc) → Type 0
Leads s d e = run (left d) (joining s d) ≡ some (joining s e)

module _ (s : System) (h : Published s) where
  lead_b_label :
      {l : Option Label} {a b c d : Name}
      → l ≡ some (transfer alice bob)
      → a ≡ alice
      → b ≡ bob
      → c ≡ bob
      → d ≡ alice
      → Leads s (at_b_label l a b c d) cycle
  unfolding run
  lead_b_label el ea eb ec ed = λ j. some (
      joining s (
        reported (record {
          a_label = el j;
          b_label = h.labels.1 j;
          a_holds = ea j;
          a_wants = eb j;
          b_holds = ec j;
          b_wants = ed j;
        })))

  -- From the test on, and from each load before it.
  lead_test :
      {a b c d : Name}
      → a ≡ alice
      → b ≡ bob
      → c ≡ bob
      → d ≡ alice
      → Leads s (at_test (some a) (some b) (some c) (some d)) cycle
  unfolding run
  lead_test ea eb ec ed = lead_b_label h.labels.0 ea eb ec ed

  lead_b_wants :
      {a b c : Name}
      → a ≡ alice
      → b ≡ bob
      → c ≡ bob
      → Leads s (at_b_wants (some a) (some b) (some c)) cycle
  unfolding run
  lead_b_wants {a} {b} {c} ea eb ec =
      subst
        (λ o.
          run (dog ∷ report false) (joining s (at_test (some a) (some b) (some c) o))
          ≡ some (joining s cycle))
        (sym h.twos.1) (lead_test ea eb ec refl)

  lead_b_holds : {a b : Name} → a ≡ alice → b ≡ bob → Leads s (at_b_holds (some a) (some b)) cycle
  unfolding run
  lead_b_holds {a} {b} ea eb =
      subst
        (λ o.
          run (dog ∷ dog ∷ report false) (joining s (at_b_wants (some a) (some b) o))
          ≡ some (joining s cycle))
        (sym h.twos.0) (lead_b_wants ea eb refl)

  lead_a_wants : {a : Name} → a ≡ alice → Leads s (at_a_wants (some a)) cycle
  unfolding run
  lead_a_wants {a} ea =
      subst
        (λ o.
          run (dog ∷ dog ∷ dog ∷ report false) (joining s (at_b_holds (some a) o))
          ≡ some (joining s cycle))
        (sym h.ones.1) (lead_b_holds ea refl)

leads :
    (d : DogPc) (s : System)
    → Published s
    → Sees d s
    → ((missed d ≡ false) × Leads s d cycle) ⊎ ((missed d ≡ true) × Leads s d quiet)
unfolding run
leads asleep s h x = inl (refl, watch-Published s h)
leads at_a_holds s h x = inl (refl, watch-Published s h)
leads (at_a_wants none) s h x = inr (refl, refl)
leads (at_a_wants (some a)) s h x = inl (refl, lead_a_wants s h x.0)
leads (at_b_holds none b) s h x = inr (refl, refl)
leads (at_b_holds (some a) none) s h x = inr (refl, refl)
leads (at_b_holds (some a) (some b)) s h x = inl (refl, lead_b_holds s h x.0 x.1)
leads (at_b_wants none b c) s h x = inr (refl, refl)
leads (at_b_wants (some a) none c) s h x = inr (refl, refl)
leads (at_b_wants (some a) (some b) none) s h x = inr (refl, refl)
leads (at_b_wants (some a) (some b) (some c)) s h x = inl (refl, lead_b_wants s h x.0 x.1 x.2)
leads (at_test none b c d) s h x = inr (refl, refl)
leads (at_test (some a) none c d) s h x = inr (refl, refl)
leads (at_test (some a) (some b) none d) s h x = inr (refl, refl)
leads (at_test (some a) (some b) (some c) none) s h x = inr (refl, refl)
leads (at_test (some a) (some b) (some c) (some d)) s h x =
    inl (refl, lead_test s h x.0 x.1 x.2 x.3)
leads (at_a_label a b c d) s h x = inl (refl, lead_test s h x.0 x.1 x.2 x.3)
leads (at_b_label l a b c d) s h x = inl (refl, lead_b_label s h x.0 x.1 x.2 x.3 x.4)
leads (printed r) s h x = inl (refl, λ j. some (joining s (x.0 j)))
leads quiet s h x = inr (refl, refl)
leads (reported r) s h x = inl (refl, rw x.0 refl)

-- In every reachable deadlock, whether the watchdog has loaded a null pointer decides how it ends. If
-- not, its remaining steps lead to the report of the cycle with both labels, and to the exit status 1.
-- If so, they lead to where it says nothing; then no actor can step and there is no exit status.
pub fate :
    {p : Process}
    → Reach p
    → IsDeadlock p.sys
    → ((missed p.dog ≡ false)
        × (run (left p.dog) p ≡ some (record p { dog = cycle }))
        × (status cycle p.at ≡ some 1))
      ⊎ ((missed p.dog ≡ true)
          × (run (left p.dog) p ≡ some (record p { dog = quiet }))
          × (status quiet p.at ≡ none)
          × ((a : Actor) → step a (record p { dog = quiet }) ≡ none))
fate {p} r d =
    let same : joining p.sys p.dog ≡ p =
      λ i. record { sys = p.sys; dog = p.dog; at = sym (deadlock-at r d) i } in
    elim (leads p.dog p.sys (Published-IsDeadlock p.sys (Reach-Safe r) d) (Reach-Sees r)) [
      | inl (seen, e) ↦
          inl (seen, subst (λ q. run (left p.dog) q ≡ some (record q { dog = cycle })) same e, refl)
      | inr (null, e) ↦
          let e : run (left p.dog) p ≡ some (record p { dog = quiet }) =
            subst (λ q. run (left p.dog) q ≡ some (record q { dog = quiet })) same e in
          let (none_yet, nobody) = hang (Reach-run (left p.dog) p _ r e) d refl in
          inr (null, e, none_yet, nobody)
    ]
