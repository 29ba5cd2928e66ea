-- ===== src/FalseSharing/Memory/View.antt =====
-- What the four counters are, whatever else is in memory, and that a run depends on nothing else.
use mathlib.Core.Path.{fun_ext}
use mathlib.Core.Option
use mathlib.Core.Option.{some-injective}
use systems_postmortems.Threads.Invariant.{spawned-le-count}
use systems_postmortems.Prelude.{
  ℕ, ◌+◌, ◌%◌, ◌^◌, ◌≤◌, ◌<◌, ◌≡◌, ◌≢◌, ℕ_discrete, refl, ap, sym, ◌∙◌, ◌&&◌, not, some,
  Option-cases, Bool-cases, inl, inr, ltb, ltb→lt, if◌then◌else◌, arith, subst,
}
use systems_postmortems.Threads
use systems_postmortems.Threads.{Program, System, Actor, main, worker, step, Reach, start, later}
use systems_postmortems.Threads.Table.{store}
use systems_postmortems.FalseSharing.Memory.{
  Memory, load_word, store_word, worker_at, reset_at, program_at,
}
use systems_postmortems.FalseSharing.Memory.Words.{Apart, load_word-same, load_word-other}
use systems_postmortems.FalseSharing.Run.{Counters, program}
use systems_postmortems.FalseSharing.Run.{worker as worker_of}

module _ (place : ℕ → ℕ) (apart : (i j : ℕ) → i ≢ j → Apart (place i) (place j)) where
  abbrev pub counters : Memory → Counters
  counters m i = if ltb i 4 then load_word m (place i) else 0

  store-counter :
      (m : Memory) (i v j : ℕ)
      → i < 4
      → v < 2 ^ 64
      → counters (store_word m (place i) v) j ≡ store (counters m) i v j
  store-counter m i v j lt small = elim (ℕ_discrete i j) [
    | yes e ↦
        subst (λ j. counters (store_word m (place i) v) j ≡ store (counters m) i v j) e
          (ground (arith, load_word-same m (place i) v small, lt))
    | no ne ↦ ground (arith, load_word-other m (place i) v (place j) (apart i j ne), ne)
  ]

  store-counters :
      (m : Memory) (i v : ℕ)
      → i < 4
      → v < 2 ^ 64
      → counters (store_word m (place i) v) ≡ store (counters m) i v
  store-counters m i v lt small = fun_ext (λ j. store-counter m i v j lt small)

  increment-counters :
      (m : Memory) (i : ℕ)
      → i < 4
      → store (counters m) i ((counters m i + 1) % 2 ^ 64)
        ≡ counters (store_word m (place i) ((load_word m (place i) + 1) % 2 ^ 64))
  increment-counters m i lt =
      let here : counters m i ≡ load_word m (place i) = ground (arith, lt) in
      ap (λ (v : ℕ). store (counters m) i ((v + 1) % 2 ^ 64)) here
      ∙ sym (store-counters m i ((load_word m (place i) + 1) % 2 ^ 64) lt (omega arith))

  abbrev pub view : System Memory ℕ → System Counters ℕ
  view s = record {
    shared = counters s.shared;
    spawned = s.spawned;
    joined = s.joined;
    pcs = s.pcs;
  }

  module _ (threads per : ℕ) (few : threads ≤ 4) where
    view-step-main :
        (s : System Memory ℕ)
        → step (program threads per) main (view s)
          ≡ Option.map (λ t. view t) (step (program_at place threads per) main s)
    unfolding step program program_at
    view-step-main s = elim (Bool-cases (ltb s.spawned threads)) [
      | inl more ↦ rw more refl
      | inr all ↦ elim (Bool-cases (ltb s.joined threads && not (ltb (s.pcs s.joined) per))) [
        | inl ends ↦ rw (all, ends) refl
        | inr waits ↦ rw (all, waits) refl
      ]
    ]

    view-worker :
        (i : ℕ) (s : System Memory ℕ)
        → i < 4
        → Option.map
            (λ (m, w). record (view s) { shared = m; pcs = store s.pcs i w })
            (worker_of per i (counters s.shared) (s.pcs i))
          ≡ Option.map
              (λ t. view t)
              (Option.map
                (λ (m, w). record s { shared = m; pcs = store s.pcs i w })
                (worker_at place per i s.shared (s.pcs i)))
    unfolding worker_of worker_at
    view-worker i s lt = elim (Bool-cases (ltb (s.pcs i) per)) [
      | inl more ↦ rw more (
          ap
            (λ (c : Counters). some (record {
              shared = c;
              spawned = s.spawned;
              joined = s.joined;
              pcs = store s.pcs i ((s.pcs i + 1) % 2 ^ 64);
            }))
            (increment-counters s.shared i lt))
      | inr ends ↦ rw ends refl
    ]

    view-step :
        (a : Actor) (s : System Memory ℕ)
        → s.spawned ≤ threads
        → step (program threads per) a (view s)
          ≡ Option.map (λ t. view t) (step (program_at place threads per) a s)
    unfolding step program program_at
    view-step main s h = view-step-main s
    view-step (worker i) s h = elim (Bool-cases (ltb i s.spawned)) [
      | inl there ↦ rw there (view-worker i s (omega (arith, ltb→lt _ _ there)))
      | inr absent ↦ rw absent refl
    ]

    counters-reset_at : (m : Memory) → counters (reset_at place 4 0 m) ≡ (λ i. 0)
    unfolding reset_at
    counters-reset_at m =
        let one : Memory = store_word m (place 0) 0 in
        let two : Memory = store_word one (place 1) 0 in
        let three : Memory = store_word two (place 2) 0 in
        store-counters three 3 0 (omega arith) (omega arith)
        ∙ ap (λ c. store c 3 0) (store-counters two 2 0 (omega arith) (omega arith))
        ∙ ap (λ c. store (store c 2 0) 3 0) (store-counters one 1 0 (omega arith) (omega arith))
        ∙ ap (λ c. store (store (store c 1 0) 2 0) 3 0)
            (store-counters m 0 0 (omega arith) (omega arith))
        ∙ fun_ext (λ i. ground arith)

    -- The run of the counters that a run in memory stands for.
    pub view-Reach :
        (m : Memory) {k : ℕ} {s : System Memory ℕ}
        → Reach (program_at place threads per) (reset_at place 4 0 m) k s
        → Reach (program threads per) (λ i. 0) k (view s)
    unfolding program program_at
    view-Reach m start =
        subst
          (λ c.
            Reach (program threads per) (λ i. 0) 0
              (record { shared = c; spawned = 0; joined = 0; pcs = λ i. 0 }))
          (sym (counters-reset_at m)) start
    view-Reach m (later {k} {s} {t} r a e) = later (view-Reach m r) a (
        view-step a s (spawned-le-count (program_at place threads per) r)
        ∙ ap (λ o. Option.map (λ t. view t) o) e)

    -- And the run in memory of a run of the counters.
    pub lift-Reach :
        (m : Memory) {k : ℕ} {t : System Counters ℕ}
        → Reach (program threads per) (λ i. 0) k t
        → (s : System Memory ℕ) × Reach (program_at place threads per) (reset_at place 4 0 m) k s
          × (view s ≡ t)
    unfolding program program_at
    lift-Reach m start = (
      Threads.initial (program_at place threads per) (reset_at place 4 0 m),
      start,
      ap (λ (c : Counters). record { shared = c; spawned = 0; joined = 0; pcs = λ i. 0 })
          (counters-reset_at m),
    )
    lift-Reach m (later {k} {s = t} {t = u} r a e) =
        let (s, r', q) = lift-Reach m r in
        let moved : Option.map (λ x. view x) (step (program_at place threads per) a s) ≡ some u =
          sym (view-step a s (spawned-le-count (program_at place threads per) r'))
          ∙ subst (λ x. step (program threads per) a x ≡ some u) (sym q) e in
        elim (Option-cases (step (program_at place threads per) a s)) [
          | inl stuck ↦ absurd (ground (arith, moved, stuck))
          | inr (s', e') ↦ (
            s',
            later r' a e',
            some-injective (view s') u (sym (ap (λ o. Option.map (λ x. view x) o) e') ∙ moved),
          )
        ]
