-- ===== src/Threads.antt =====
-- The fork-join shape that the `main` of cases 01 and 05 shares: start `count` workers in order, join
-- them in order, return. Workers interleave one shared access at a time; std::thread gives a worker
-- its first step only after it was started, and join waits until it has finished.
pub mod Table
pub mod Invariant
pub mod Progress
use mathlib.Core.Option
use systems_postmortems.Prelude.{
  ℕ, suc, ◌+◌, ◌<◌, ◌≡◌, Bool, true, false, ◌&&◌, Option, none, some, ltb, leb, if◌then◌else◌,
}
use Table.{store}

-- `access i m w` is the next step of worker `i` at `w`, on the shared state `m`; `none` at the end.
pub record Program {ℓ κ} (S : Type ℓ) (W : Type κ) : Type (ℓ ⊔ κ) where
  pub count : ℕ
  pub entry : ℕ → W
  pub access : ℕ → S → W → Option (S × W)
  pub finished : W → Bool

pub record System {ℓ κ} (S : Type ℓ) (W : Type κ) : Type (ℓ ⊔ κ) where
  pub shared : S
  pub spawned : ℕ
  pub joined : ℕ
  pub pcs : ℕ → W

pub data Actor : Type 0 where
  main : Actor
  worker : ℕ → Actor

module _ {ℓ κ} {S : Type ℓ} {W : Type κ} (p : Program S W) where
  abbrev pub initial : S → System S W
  initial m = record { shared = m; spawned = 0; joined = 0; pcs = p.entry }

  -- `none`: the actor has nothing to do, or waits.
  unfoldable pub step : Actor → System S W → Option (System S W)
  step main s =
      if ltb s.spawned p.count
      then some (record s { spawned = s.spawned + 1 })
      else (if ltb s.joined p.count && p.finished (s.pcs s.joined)
          then some (record s { joined = s.joined + 1 })
          else none)
  step (worker i) s =
      if ltb i s.spawned
      then Option.map (λ (m, w). record s { shared = m; pcs = store s.pcs i w })
          (p.access i s.shared (s.pcs i))
      else none

  -- `main` is past its joins.
  abbrev pub returned : System S W → Bool
  returned s = leb p.count s.spawned && leb p.count s.joined

  -- The states after `k` steps of any interleaving.
  pub data Reach (m : S) : ℕ → System S W → Type (ℓ ⊔ κ) where
    start : Reach m 0 (initial m)
    later :
        {k : ℕ} {s t : System S W}
        → Reach m k s
        → (a : Actor) → step a s ≡ some t
        → Reach m (suc k) t
