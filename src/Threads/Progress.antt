-- ===== src/Threads/Progress.antt =====
-- Termination of a fork-join program whose workers never wait: a run is bounded, and only a state
-- where `main` has returned has no next step.
use systems_postmortems.Prelude.{
  ℕ, suc, ◌+◌, ◌-◌, ◌*◌, ◌≤◌, ◌≡◌, true, false, some, ltb, lt→ltb, arith, dec_lt, Bool-cases, inl,
  inr,
}
use systems_postmortems.Threads.{
  Program, System, Actor, main, worker, step, Reach, start, later, returned,
}
use systems_postmortems.Threads.Table.{store, sum_over, sum_over-store}
use systems_postmortems.Threads.Invariant.{Move, spawns, joins, works, Move-step}

module _ {ℓ κ} {S : Type ℓ} {W : Type κ} (p : Program S W) where
  -- `left w` is the number of steps that a worker at `w` has yet to make.
  pub record IsCounted (left : W → ℕ) : Type (ℓ ⊔ κ) where
    pub falls :
        (i : ℕ) (m m' : S) (w w' : W) → p.access i m w ≡ some (m', w') → left w' + 1 ≡ left w
    pub live :
        (i : ℕ) (m : S) (w : W) → p.finished w ≡ false → (r : S × W) × (p.access i m w ≡ some r)

  module _ (left : W → ℕ) (counted : IsCounted left) where
    open counted use {falls, live}

    abbrev work_left : System S W → ℕ
    work_left s =
        (p.count - s.spawned) + (p.count - s.joined) + sum_over p.count (λ i. left (s.pcs i))

    record Budget (budget k : ℕ) (s : System S W) : Type 0 where
      few : s.spawned ≤ p.count
      fewer : s.joined ≤ p.count
      spent : k + work_left s ≡ budget

    Budget-Move :
        {budget k : ℕ} {s t : System S W} → Move p s t → Budget budget k s → Budget budget (suc k) t
    Budget-Move (spawns lt) b = record {
      few = omega arith;
      fewer = b.fewer;
      spent = omega (arith, b.spent);
    }
    Budget-Move (joins ge lt f) b = record {
      few = b.few;
      fewer = omega arith;
      spent = omega (arith, b.spent);
    }
    Budget-Move {s} (works i m w lt a) b = record {
      few = b.few;
      fewer = b.fewer;
      spent = omega (
        arith,
        b.spent,
        b.few,
        falls i s.shared m (s.pcs i) w a,
        sum_over-store left p.count s.pcs i w (omega (arith, b.few)),
      );
    }

    Budget-Reach :
        {m₀ : S} {k : ℕ} {s : System S W}
        → Reach p m₀ k s
        → Budget (2 * p.count + sum_over p.count (λ i. left (p.entry i))) k s
    Budget-Reach start = record { few = omega arith; fewer = omega arith; spent = omega arith }
    Budget-Reach (later r a e) = Budget-Move (Move-step p a e) (Budget-Reach r)

    -- Every run has at most as many steps as there are starts, joins and worker steps.
    pub Reach-bound :
        {m₀ : S} {k : ℕ} {s : System S W}
        → Reach p m₀ k s
        → k ≤ 2 * p.count + sum_over p.count (λ i. left (p.entry i))
    Reach-bound r = omega (arith, (Budget-Reach r).spent)

    -- Until `main` has returned, some actor can step.
    pub Reach-progress :
        {m₀ : S} {k : ℕ} {s : System S W}
        → Reach p m₀ k s
        → returned p s ≡ false
        → (a : Actor) × (t : System S W) × (step p a s ≡ some t)
    unfolding step
    Reach-progress {s} r h = elim (dec_lt s.spawned p.count) [
      | yes lt ↦ (main, record s { spawned = s.spawned + 1 }, rw (lt→ltb _ _ lt))
      | no ge ↦ elim (Bool-cases (p.finished (s.pcs s.joined))) [
        | inl done ↦
            let full : ltb s.spawned p.count ≡ false = ground arith in
            let more : ltb s.joined p.count ≡ true = ground arith in
            (main, record s { joined = s.joined + 1 }, rw (full, more, done))
        | inr busy ↦
            let ((m, w), e) = live s.joined s.shared (s.pcs s.joined) busy in
            let q : ltb s.joined s.spawned ≡ true = ground arith in
            (worker s.joined, record s { shared = m; pcs = store s.pcs s.joined w }, rw (q, e))
      ]
    ]
