-- ===== src/Inversion/Threads/Kernel/First.antt =====
-- The steps of case 06 after which a thread has asked that had not before are its calls of `setPriority`.
use mathlib.Core.Option.{}
use systems_postmortems.Prelude.{ℕ, ◌≡◌, ◌≢◌, refl, true, false, some, subst, arith}
use systems_postmortems.Inversion.Priority.{}
use systems_postmortems.Inversion.Threads
use systems_postmortems.Inversion.Threads.{
  Thread, starter, low, medium, high, LowPc, HogPc, ControlPc, MainPc, System, count, initial,
  wake_up, low_step, medium_step, high_step, starter_step, when-some, is_free, high_over, low_over,
  medium_over,
}
use systems_postmortems.Inversion.Threads.Scheduler.{}
use systems_postmortems.Inversion.Threads.Waking.{
  Woken, starter_woken, low_woken, medium_woken, high_woken,
}
use systems_postmortems.Inversion.Threads.Kernel.{
  low_enters, medium_enters, high_enters, enters, resume, refused,
}
use systems_postmortems.Inversion.Threads.Kernel.Asked.{
  asked, asked_same, low_asks, medium_asks, high_asks,
}
use systems_postmortems.Inversion.Threads.Kernel.Calls.{}

module _ (iterations : ℕ) where
  low_asked_first :
      (p : LowPc) (s u : System)
      → s.low_at ≡ p
      → low_enters p ≡ false
      → low_step refused iterations p s ≡ some u
      → asked low s ≡ true
  unfolding low_step
  low_asked_first LowPc.unborn s u q f e = absurd (cc)
  low_asked_first p s u q f e = ground arith

  medium_asked_first :
      (p : HogPc) (s u : System)
      → s.medium_at ≡ p
      → medium_enters p ≡ false
      → medium_step refused iterations p s ≡ some u
      → asked medium s ≡ true
  unfolding medium_step
  medium_asked_first HogPc.unborn s u q f e = absurd (cc)
  medium_asked_first p s u q f e = ground arith

  high_asked_first :
      (p : ControlPc) (s u : System)
      → s.high_at ≡ p
      → high_enters p ≡ false
      → high_step refused iterations p s ≡ some u
      → asked high s ≡ true
  unfolding high_step
  high_asked_first ControlPc.unborn s u q f e = absurd (cc)
  high_asked_first p s u q f e = ground arith

  starter_asked_first :
      (p : MainPc) (s u : System)
      → starter_step refused iterations p s ≡ some u
      → (v : Thread) → asked v u ≡ true
      → asked v s ≡ true
  unfolding starter_step
  starter_asked_first MainPc.past_joins s u e v a = absurd (cc)
  starter_asked_first (MainPc.asleep wake) s u e v a = absurd (cc)
  starter_asked_first MainPc.join_high s u e v a =
      subst (λ w. asked v w ≡ true → asked v s ≡ true) (when-some (high_over s.high_at) _ u e).1
        (asked_same v _ s refl refl refl) a
  starter_asked_first MainPc.join_low s u e v a =
      subst (λ w. asked v w ≡ true → asked v s ≡ true) (when-some (low_over s.low_at) _ u e).1
        (asked_same v _ s refl refl refl) a
  starter_asked_first MainPc.join_medium s u e v a =
      subst (λ w. asked v w ≡ true → asked v s ≡ true) (when-some (medium_over s.medium_at) _ u e).1
        (asked_same v _ s refl refl refl) a
  starter_asked_first MainPc.create_low s u e low a = ground arith
  starter_asked_first MainPc.create_medium s u e medium a = ground arith
  starter_asked_first MainPc.create_high s u e high a = ground arith
  starter_asked_first p s u e v a = ground arith

  -- A step that is no call of `setPriority` is by a thread that has asked or by `main`, which asks for
  -- nothing.
  pub asked_first :
      (t : Thread) (s u : System)
      → enters t s ≡ false
      → Threads.execute refused iterations t s ≡ some u
      → (v : Thread) → asked v u ≡ true
      → asked v s ≡ true
  unfolding Threads.execute
  asked_first starter s u f e v a = starter_asked_first s.starter_at s u e v a
  asked_first low s u f e low a = low_asked_first s.low_at s u refl f e
  asked_first low s u f e v a = ground (arith, low_asks iterations refused s.low_at s u e)
  asked_first medium s u f e medium a = medium_asked_first s.medium_at s u refl f e
  asked_first medium s u f e v a = ground (arith, medium_asks iterations refused s.medium_at s u e)
  asked_first high s u f e high a = high_asked_first s.high_at s u refl f e
  asked_first high s u f e v a = ground (arith, high_asks iterations refused s.high_at s u e)

pub Woken-asked : {s u : System} → Woken s u → (v : Thread) → asked v u ≡ true → asked v s ≡ true
Woken-asked (starter_woken k q le) v a = asked_same v _ _ refl refl refl a
Woken-asked (low_woken k q le) low a = ground (arith, q)
Woken-asked (low_woken k q le) v a = ground arith
Woken-asked (medium_woken k q le) medium a = ground (arith, q)
Woken-asked (medium_woken k q le) v a = ground arith
Woken-asked (high_woken i k q le) high a = ground (arith, q)
Woken-asked (high_woken i k q le) v a = ground arith

pub resume-asked :
    (t v : Thread) (s : System) (rt : ℕ)
    → t ≢ v
    → asked v (resume t (record s { rt_threads = rt })) ≡ true
    → asked v s ≡ true
resume-asked starter starter s rt n a = a
resume-asked low low s rt n a = absurd (n refl)
resume-asked medium medium s rt n a = absurd (n refl)
resume-asked high high s rt n a = absurd (n refl)
resume-asked starter v s rt n a = asked_same v (record s { rt_threads = rt }) s refl refl refl a
resume-asked low v s rt n a = ground arith
resume-asked medium v s rt n a = ground arith
resume-asked high v s rt n a = ground arith
