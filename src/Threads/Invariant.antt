-- ===== src/Threads/Invariant.antt =====
-- Invariants of a fork-join program, whatever the interleaving.
use systems_postmortems.Prelude.{
  ℕ, ◌+◌, ◌≤◌, ◌<◌, ◌≡◌, true, none, some, arith, dec_lt, subst, inl, inr, Option-cases,
}
use systems_postmortems.Threads.{
  Program, System, Actor, main, worker, step, Reach, start, later, returned,
}
use systems_postmortems.Threads.Table.{store}

module _ {ℓ κ} {S : Type ℓ} {W : Type κ} (p : Program S W) where
  -- What one step of `main` or of a worker does.
  pub data Move (s : System S W) : System S W → Type (ℓ ⊔ κ) where
    spawns : s.spawned < p.count → Move s (record s { spawned = s.spawned + 1 })
    joins :
        p.count ≤ s.spawned
        → s.joined < p.count
        → p.finished (s.pcs s.joined) ≡ true
        → Move s (record s { joined = s.joined + 1 })
    works :
        (i : ℕ) (m : S) (w : W)
        → i < s.spawned
        → p.access i s.shared (s.pcs i) ≡ some (m, w)
        → Move s (record s { shared = m; pcs = store s.pcs i w })

  Move-main : (s t : System S W) → step p main s ≡ some t → Move s t
  unfolding step
  Move-main s t e = elim (dec_lt s.spawned p.count) [
    | yes lt ↦
        let q : record s { spawned = s.spawned + 1 } ≡ t = ground arith in
        subst (Move s) q (spawns lt)
    | no ge ↦
        let q : record s { joined = s.joined + 1 } ≡ t = ground arith in
        subst (Move s) q (joins (omega arith) (ground arith) (ground arith))
  ]

  Move-worker : (i : ℕ) (s t : System S W) → step p (worker i) s ≡ some t → Move s t
  unfolding step
  Move-worker i s t e = elim (Option-cases (p.access i s.shared (s.pcs i))) [
    | inl stuck ↦ absurd (ground arith)
    | inr ((m, w), a) ↦
        let q : record s { shared = m; pcs = store s.pcs i w } ≡ t = ground arith in
        subst (Move s) q (works i m w (ground arith) a)
  ]

  pub Move-step : (a : Actor) {s t : System S W} → step p a s ≡ some t → Move s t
  Move-step main e = Move-main _ _ e
  Move-step (worker i) e = Move-worker i _ _ e

  -- An invariant of the shared state and the workers, kept by each step of a worker.
  module _ {μ} (P : S → (ℕ → W) → Type μ) (m₀ : S) (here : P m₀ p.entry)
      (keep : (i : ℕ) (m m' : S) (f : ℕ → W) (w' : W)
        → i < p.count
        → p.access i m (f i) ≡ some (m', w')
        → P m f
        → P m' (store f i w')) where
    record Held (s : System S W) : Type μ where
      few : s.spawned ≤ p.count
      inv : P s.shared s.pcs

    Held-Move : {s t : System S W} → Move s t → Held s → Held t
    Held-Move (spawns lt) h = record { few = omega arith; inv = h.inv }
    Held-Move (joins _ _ _) h = record { few = h.few; inv = h.inv }
    Held-Move {s} (works i m w lt a) h = record {
      few = h.few;
      inv = keep i s.shared m s.pcs w (omega (arith, h.few)) a h.inv;
    }

    Held-Reach : {k : ℕ} {s : System S W} → Reach p m₀ k s → Held s
    Held-Reach start = record { few = omega arith; inv = here }
    Held-Reach (later r a e) = Held-Move (Move-step a e) (Held-Reach r)

    pub Reach-inv : {k : ℕ} {s : System S W} → Reach p m₀ k s → P s.shared s.pcs
    Reach-inv r = (Held-Reach r).inv

  pub spawned-le-count : {m₀ : S} {k : ℕ} {s : System S W} → Reach p m₀ k s → s.spawned ≤ p.count
  spawned-le-count {m₀} r = (Held-Reach (λ m f. Unit {0}) m₀ tt (λ i m m' f w' lt a h. tt) r).few

  -- A finished worker takes no further step.
  abbrev pub IsStable : Type (ℓ ⊔ κ)
  IsStable = (i : ℕ) (m : S) (w : W) → p.finished w ≡ true → p.access i m w ≡ none

  abbrev AllJoined : System S W → Type 0
  AllJoined s = (i : ℕ) → i < s.joined → p.finished (s.pcs i) ≡ true

  joined-Move : IsStable → {s t : System S W} → Move s t → AllJoined s → AllJoined t
  joined-Move stable (spawns _) h i lt = h i lt
  joined-Move stable {s} (joins _ _ f) h i lt = elim (dec_lt i s.joined) [
    | yes before ↦ h i before
    | no last ↦ let q : i ≡ s.joined = omega arith in rw q f
  ]
  joined-Move stable {s} (works j m w _ a) h i lt =
      ground (arith, h i lt, stable j s.shared (s.pcs j))

  joined-Reach : IsStable → {m₀ : S} {k : ℕ} {s : System S W} → Reach p m₀ k s → AllJoined s
  joined-Reach stable start i lt = absurd (omega arith)
  joined-Reach stable (later r a e) i lt =
      joined-Move stable (Move-step a e) (joined-Reach stable r) i lt

  -- When `main` returns, every worker has finished.
  pub returned-finished :
      IsStable
      → {m₀ : S} {k : ℕ} {s : System S W} → Reach p m₀ k s
      → returned p s ≡ true
      → (i : ℕ) → i < p.count
      → p.finished (s.pcs i) ≡ true
  returned-finished stable r h i lt = joined-Reach stable r i (ground arith)
