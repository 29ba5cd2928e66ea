-- ===== src/Inversion/Threads/Kernel/Asked.antt =====
-- Which threads of case 06 have called `setPriority`, and that their steps depend on nothing else of
-- what was granted.
use mathlib.Core.Option.{}
use systems_postmortems.Prelude.{ℕ, zero, suc, ◌≡◌, refl, Bool, true, false, some, subst, arith}
use systems_postmortems.Inversion.Threads.{
  Thread, starter, low, medium, high, LowPc, HogPc, ControlPc, MainPc, System, count, execute,
  low_step, medium_step, high_step, starter_step, when-some, is_free, high_over, low_over,
  medium_over,
}
use systems_postmortems.Inversion.Threads.Joins.{IsCounted, low_asked, medium_asked, high_asked}
use systems_postmortems.Inversion.Threads.Waking.{
  Woken, starter_woken, low_woken, medium_woken, high_woken,
}
use systems_postmortems.Inversion.Threads.Kernel.{
  low_enters, medium_enters, high_enters, enters, resume,
}

abbrev pub asked : Thread → System → Bool
asked starter s = false
asked low s = low_asked s.low_at
asked medium s = medium_asked s.medium_at
asked high s = high_asked s.high_at

pub asked_same :
    (v : Thread) (s u : System)
    → u.low_at ≡ s.low_at
    → u.medium_at ≡ s.medium_at
    → u.high_at ≡ s.high_at
    → asked v s ≡ true
    → asked v u ≡ true
asked_same starter s u l m h a = a
asked_same low s u l m h a = rw l a
asked_same medium s u l m h a = rw m a
asked_same high s u l m h a = rw h a

module _ (iterations : ℕ) where
  low_blind :
      (g h : Thread → Bool) (p : LowPc) (s : System)
      → low_enters p ≡ false
      → low_step g iterations p s ≡ low_step h iterations p s
  unfolding low_step
  low_blind g h LowPc.entry s e = absurd (cc)
  low_blind g h (LowPc.spin zero state) s e = refl
  low_blind g h (LowPc.spin (suc n) state) s e = refl
  low_blind g h LowPc.unborn s e = refl
  low_blind g h p s e = refl

  medium_blind :
      (g h : Thread → Bool) (p : HogPc) (s : System)
      → medium_enters p ≡ false
      → medium_step g iterations p s ≡ medium_step h iterations p s
  unfolding medium_step
  medium_blind g h HogPc.entry s e = absurd (cc)
  medium_blind g h p s e = refl

  high_blind :
      (g h : Thread → Bool) (p : ControlPc) (s : System)
      → high_enters p ≡ false
      → high_step g iterations p s ≡ high_step h iterations p s
  unfolding high_step
  high_blind g h ControlPc.entry s e = absurd (cc)
  high_blind g h p s e = refl

  -- A step that is no call of `setPriority` is the same whatever was granted.
  pub execute_blind :
      (g h : Thread → Bool) (t : Thread) (s : System)
      → enters t s ≡ false
      → execute g iterations t s ≡ execute h iterations t s
  unfolding execute starter_step
  execute_blind g h starter s e = refl
  execute_blind g h low s e = low_blind g h s.low_at s e
  execute_blind g h medium s e = medium_blind g h s.medium_at s e
  execute_blind g h high s e = high_blind g h s.high_at s e

  low_entered :
      (g : Thread → Bool) (p : LowPc) (s : System)
      → low_enters p ≡ true
      → low_step g iterations p s
        ≡ some (resume low (record s { rt_threads = count (g low) s.rt_threads }))
  unfolding low_step
  low_entered g LowPc.entry s e = refl
  low_entered g p s e = absurd (cc)

  medium_entered :
      (g : Thread → Bool) (p : HogPc) (s : System)
      → medium_enters p ≡ true
      → medium_step g iterations p s
        ≡ some (resume medium (record s { rt_threads = count (g medium) s.rt_threads }))
  unfolding medium_step
  medium_entered g HogPc.entry s e = refl
  medium_entered g p s e = absurd (cc)

  high_entered :
      (g : Thread → Bool) (p : ControlPc) (s : System)
      → high_enters p ≡ true
      → high_step g iterations p s
        ≡ some (resume high (record s { rt_threads = count (g high) s.rt_threads }))
  unfolding high_step
  high_entered g ControlPc.entry s e = refl
  high_entered g p s e = absurd (cc)

  pub execute_entered :
      (g : Thread → Bool) (t : Thread) (s : System)
      → enters t s ≡ true
      → execute g iterations t s
        ≡ some (resume t (record s { rt_threads = count (g t) s.rt_threads }))
  unfolding execute
  execute_entered g starter s e = absurd (cc)
  execute_entered g low s e = low_entered g s.low_at s e
  execute_entered g medium s e = medium_entered g s.medium_at s e
  execute_entered g high s e = high_entered g s.high_at s e

  -- A thread that has made a step has asked, and its steps leave the other two where they are.
  pub low_asks :
      (g : Thread → Bool) (p : LowPc) (s u : System)
      → low_step g iterations p s ≡ some u
      → (low_asked u.low_at ≡ true) × (u.medium_at ≡ s.medium_at) × (u.high_at ≡ s.high_at)
  unfolding low_step
  low_asks g LowPc.unborn s u e = absurd (cc)
  low_asks g LowPc.acquire s u e =
      subst
        (λ v. (low_asked v.low_at ≡ true) × (v.medium_at ≡ s.medium_at) × (v.high_at ≡ s.high_at))
        (when-some (is_free s.owner) _ u e).1 (refl, refl, refl)
  low_asks g (LowPc.spin zero state) s u e = ground arith
  low_asks g (LowPc.spin (suc n) state) s u e = ground arith
  low_asks g p s u e = ground arith

  pub medium_asks :
      (g : Thread → Bool) (p : HogPc) (s u : System)
      → medium_step g iterations p s ≡ some u
      → (medium_asked u.medium_at ≡ true) × (u.low_at ≡ s.low_at) × (u.high_at ≡ s.high_at)
  unfolding medium_step
  medium_asks g p s u e = ground arith

  pub high_asks :
      (g : Thread → Bool) (p : ControlPc) (s u : System)
      → high_step g iterations p s ≡ some u
      → (high_asked u.high_at ≡ true) × (u.low_at ≡ s.low_at) × (u.medium_at ≡ s.medium_at)
  unfolding high_step
  high_asks g ControlPc.unborn s u e = absurd (cc)
  high_asks g (ControlPc.acquire i at) s u e =
      subst
        (λ v. (high_asked v.high_at ≡ true) × (v.low_at ≡ s.low_at) × (v.medium_at ≡ s.medium_at))
        (when-some (is_free s.owner) _ u e).1 (refl, refl, refl)
  high_asks g p s u e = ground arith

  -- `main` starts a thread once, before it has asked for anything.
  starter_asks :
      (g : Thread → Bool) (p : MainPc) (s u : System)
      → s.starter_at ≡ p
      → IsCounted g s
      → starter_step g iterations p s ≡ some u
      → (v : Thread) → asked v s ≡ true
      → asked v u ≡ true
  unfolding starter_step
  starter_asks g MainPc.past_joins s u q x e v a = absurd (cc)
  starter_asks g (MainPc.asleep wake) s u q x e v a = absurd (cc)
  starter_asks g MainPc.join_high s u q x e v a =
      subst (λ w. asked v w ≡ true) (when-some (high_over s.high_at) _ u e).1
        (asked_same v s _ refl refl refl a)
  starter_asks g MainPc.join_low s u q x e v a =
      subst (λ w. asked v w ≡ true) (when-some (low_over s.low_at) _ u e).1
        (asked_same v s _ refl refl refl a)
  starter_asks g MainPc.join_medium s u q x e v a =
      subst (λ w. asked v w ≡ true) (when-some (medium_over s.medium_at) _ u e).1
        (asked_same v s _ refl refl refl a)
  starter_asks g MainPc.create_low s u q x e low a = absurd (ground (arith, x.low_later))
  starter_asks g MainPc.create_medium s u q x e medium a = absurd (ground (arith, x.medium_later))
  starter_asks g MainPc.create_high s u q x e high a = absurd (ground (arith, x.high_later))
  starter_asks g p s u q x e v a = ground arith

  -- No step takes back that a thread has asked.
  pub asked-execute :
      (g : Thread → Bool) (t : Thread) (s u : System)
      → IsCounted g s
      → execute g iterations t s ≡ some u
      → (v : Thread) → asked v s ≡ true
      → asked v u ≡ true
  unfolding execute
  asked-execute g starter s u x e v a = starter_asks g s.starter_at s u refl x e v a
  asked-execute g low s u x e low a = (low_asks g s.low_at s u e).0
  asked-execute g low s u x e v a = ground (arith, low_asks g s.low_at s u e)
  asked-execute g medium s u x e medium a = (medium_asks g s.medium_at s u e).0
  asked-execute g medium s u x e v a = ground (arith, medium_asks g s.medium_at s u e)
  asked-execute g high s u x e high a = (high_asks g s.high_at s u e).0
  asked-execute g high s u x e v a = ground (arith, high_asks g s.high_at s u e)

pub asked-Woken : {s u : System} → Woken s u → (v : Thread) → asked v s ≡ true → asked v u ≡ true
asked-Woken (starter_woken k q le) v a = asked_same v _ _ refl refl refl a
asked-Woken (low_woken k q le) low a = refl
asked-Woken (low_woken k q le) v a = ground arith
asked-Woken (medium_woken k q le) medium a = refl
asked-Woken (medium_woken k q le) v a = ground arith
asked-Woken (high_woken i k q le) high a = refl
asked-Woken (high_woken i k q le) v a = ground arith

-- A thread that is at its call has not asked yet, and it has after the call.
pub enters-asked : (t : Thread) (s : System) → enters t s ≡ true → asked t s ≡ false
enters-asked t s e = ground arith
