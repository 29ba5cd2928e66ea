-- ===== src/Counter/Broken/Schedules.antt =====
-- Schedules of case 01's plain counter: starting every worker, and letting one run alone.
use systems_postmortems.Prelude.{
  ℕ, zero, suc, ◌+◌, ◌*◌, ◌%◌, ◌^◌, ◌≤◌, ◌<◌, ◌≡◌, ◌≢◌, refl, arith, ◌∙◌,
}
use systems_postmortems.Threads.{System, main, worker, Reach, start, later, step}
use systems_postmortems.Threads.Table.{store, sum_over-store}
use systems_postmortems.Counter.Broken
use systems_postmortems.Counter.Broken.{Metrics, Pc, head, loaded, finished, program, metrics}
use systems_postmortems.Counter.Broken.Bounds.{
  rounds, stored, Bounds, stored-lt, per-small, Bounds-Reach,
}

module _ (count per : ℕ) (small : count * per < 2 ^ 64) where
  abbrev pub Reachable : System Metrics Pc → Type 0
  Reachable s = (k : ℕ) × Reach (program count per) metrics k s

  -- Every worker is started and none is joined.
  pub record IsOpen (s : System Metrics Pc) : Type 0 where
    pub reach : Reachable s
    pub spawned : s.spawned ≡ count
    pub joined : s.joined ≡ 0

  spawn_some :
      (c : ℕ)
      → c ≤ count
      → Reachable (record { shared = metrics; spawned = c; joined = 0; pcs = λ _. head 0 })
  unfolding program step
  spawn_some zero le = (0, start)
  spawn_some (suc c) le =
      let (k, r) = spawn_some c (omega arith) in (suc k, later r main (ground arith))

  pub all_started :
      IsOpen (record { shared = metrics; spawned = count; joined = 0; pcs = λ _. head 0 })
  all_started = record { reach = spawn_some count (omega arith); spawned = refl; joined = refl }

  -- A load by worker `i`, and a store by it.
  abbrev with_pc : System Metrics Pc → ℕ → Metrics → Pc → System Metrics Pc
  with_pc s i m w = record s { shared = m; pcs = store s.pcs i w }

  pub load :
      {s : System Metrics Pc} (i a : ℕ)
      → IsOpen s
      → i < count
      → s.pcs i ≡ head a
      → a < per
      → IsOpen (with_pc s i s.shared (loaded a s.shared.requests_handled))
  unfolding program step Broken.worker
  load {s} i a o lt e more =
      let (k, r) = o.reach in
      record {
        reach = (suc k, later r (worker i) (ground arith));
        spawned = o.spawned;
        joined = o.joined;
      }

  pub save :
      {s : System Metrics Pc} (i a v : ℕ)
      → IsOpen s
      → i < count
      → s.pcs i ≡ loaded a v
      → IsOpen
          (with_pc s i (record { requests_handled = (v + 1) % 2 ^ 64 }) (head ((a + 1) % 2 ^ 64)))
  unfolding program step Broken.worker
  save {s} i a v o lt e =
      let (k, r) = o.reach in
      record {
        reach = (suc k, later r (worker i) (ground arith));
        spawned = o.spawned;
        joined = o.joined;
      }

  -- From `s` worker `i` has run alone up to round `b`, and every increment was counted.
  pub record After (s : System Metrics Pc) (i b : ℕ) (t : System Metrics Pc) : Type 0 where
    pub open_ : IsOpen t
    pub at : t.pcs i ≡ head b
    pub others : (j : ℕ) → j ≢ i → t.pcs j ≡ s.pcs j
    pub gained : t.shared.requests_handled + rounds (s.pcs i) ≡ s.shared.requests_handled + b
    pub kept :
        t.shared.requests_handled + stored count per small s.pcs
        ≡ s.shared.requests_handled + stored count per small t.pcs

  one_round :
      {s : System Metrics Pc} (i a : ℕ)
      → IsOpen s
      → i < count
      → s.pcs i ≡ head a
      → a < per
      → (t : System Metrics Pc) × After s i (a + 1) t
  one_round {s} i a o lt e more = (
    t,
    record {
      open_ = save i a v (load i a o lt e more) lt (ground arith);
      at = ground (arith, per-small count per small i lt);
      others = λ j ne. ground arith;
      gained = ground (
        arith,
        per-small count per small i lt,
        stored-lt count per small i bounds lt (ground arith),
        bounds.upper,
      );
      kept = ground (
        arith,
        per-small count per small i lt,
        stored-lt count per small i bounds lt (ground arith),
        bounds.upper,
        sum_over-store rounds count s.pcs i (loaded a v) lt,
        sum_over-store rounds count (store s.pcs i (loaded a v)) i (head ((a + 1) % 2 ^ 64)) lt,
      );
    },
  )
    where
      bounds : Bounds count per small s.shared s.pcs
      bounds = Bounds-Reach count per small o.reach.1

      v : ℕ
      v = s.shared.requests_handled

      t : System Metrics Pc
      t =
          with_pc (with_pc s i s.shared (loaded a v)) i
            (record { requests_handled = (v + 1) % 2 ^ 64 }) (head ((a + 1) % 2 ^ 64))

  -- `d` rounds of one worker, with no other in between.
  pub solo :
      (d : ℕ) {s : System Metrics Pc} (i a : ℕ)
      → IsOpen s
      → i < count
      → s.pcs i ≡ head a
      → a + d ≤ per
      → (t : System Metrics Pc) × After s i (a + d) t
  solo zero {s} i a o lt e le = (
    s,
    record {
      open_ = o;
      at = ground arith;
      others = λ j ne. refl;
      gained = ground arith;
      kept = refl;
    },
  )
  solo (suc d) {s} i a o lt e le =
      let (u, f) = one_round i a o lt e (omega arith) in
      let (t, g) = solo d i (a + 1) f.open_ lt f.at (omega arith) in
      (
        t,
        record {
          open_ = g.open_;
          at = ground (arith, g.at);
          others = λ j ne. g.others j ne ∙ f.others j ne;
          gained = ground (arith, f.gained, g.gained, f.at);
          kept = omega (arith, f.kept, g.kept);
        },
      )
