-- ===== src/Inversion/Threads/Scheduler.antt =====
-- SCHED_FIFO on one processor, by its documentation: a thread that runs is one of the highest
-- priority among those that can. A mutex with PTHREAD_PRIO_INHERIT lends its owner the priority of a
-- thread that waits for it. A thread whose request was refused, and `main`, have priority 0.
use systems_postmortems.Prelude.{
  ℕ, ◌+◌, ◌≤◌, ◌≡◌, Bool, true, false, Option, none, some, ltb, if◌then◌else◌,
}
use systems_postmortems.Inversion.Threads.{
  Thread, starter, low, medium, high, LowPc, HogPc, ControlPc, System, execute, wake_up,
}

pub data Protocol : Type 0 where
  plain inherit : Protocol

abbrev pub is_some {ℓ} : {A : Type ℓ} → Option A → Bool
is_some none = false
is_some (some a) = true

abbrev pub same : Thread → Thread → Bool
same starter starter = true
same low low = true
same medium medium = true
same high high = true
same _ _ = false

abbrev pub owns : System → Thread → Bool
owns s t = elim s.owner [ none ↦ false | some u ↦ same u t ]

abbrev pub low_waits : LowPc → Bool
low_waits LowPc.acquire = true
low_waits _ = false

abbrev pub high_waits : ControlPc → Bool
high_waits (ControlPc.acquire i asked) = true
high_waits _ = false

abbrev pub larger : ℕ → ℕ → ℕ
larger a b = if ltb a b then b else a

module _ (granted : Thread → Bool) where
  abbrev low_base : LowPc → ℕ
  low_base LowPc.unborn = 0
  low_base LowPc.entry = 0
  low_base _ = if granted low then 10 else 0

  abbrev medium_base : HogPc → ℕ
  medium_base HogPc.unborn = 0
  medium_base HogPc.entry = 0
  medium_base _ = if granted medium then 50 else 0

  abbrev high_base : ControlPc → ℕ
  high_base ControlPc.unborn = 0
  high_base ControlPc.entry = 0
  high_base _ = if granted high then 90 else 0

  -- The priorities that `setPriority` asked for, once it has.
  unfoldable pub base : System → Thread → ℕ
  base s starter = 0
  base s low = low_base s.low_at
  base s medium = medium_base s.medium_at
  base s high = high_base s.high_at

  -- What a thread that waits for the mutex lends.
  unfoldable pub lent : System → ℕ
  unfolding base
  lent s =
      larger (if low_waits s.low_at then base s low else 0)
        (if high_waits s.high_at then base s high else 0)

  unfoldable pub priority : Protocol → System → Thread → ℕ
  unfolding lent base
  priority plain s t = base s t
  priority inherit s t = if owns s t then larger (base s t) (lent s) else base s t

  abbrev pub can_run : (iterations : ℕ) → System → Thread → Bool
  can_run iterations s t = is_some (execute granted iterations t s)

  module _ (protocol : Protocol) (iterations : ℕ) where
    pub record IsPicked (s : System) (t : Thread) : Type 0 where
      pub runs : can_run iterations s t ≡ true
      pub highest :
          (u : Thread)
          → can_run iterations s u ≡ true
          → priority protocol s u ≤ priority protocol s t

    -- The states of a run in which no step takes more than `cost`. The processor may stand still
    -- only while no thread can run.
    pub data Reach (cost : ℕ) (from : System) : System → Type 0 where
      start : Reach cost from from
      step :
          {s u : System}
          → Reach cost from s
          → (t : Thread) (time : ℕ) → time ≤ cost
          → IsPicked s t
          → execute granted iterations t s ≡ some u
          → Reach cost from (record u { clock = u.clock + time })
      wakes :
          {s u : System}
          → Reach cost from s
          → (t : Thread) → wake_up t s ≡ some u
          → Reach cost from u
      idles :
          {s : System}
          → Reach cost from s
          → (time : ℕ) → ((t : Thread) → can_run iterations s t ≡ false)
          → Reach cost from (record s { clock = s.clock + time })
