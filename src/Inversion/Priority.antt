-- ===== src/Inversion/Priority.antt =====
-- `setPriority` of case 06: ask for a policy and read it back. The two pthread calls are a parameter.
pub mod Granted
use systems_postmortems.Prelude.{
  ℕ, ◌+◌, ◌&&◌, Bool, true, false, not, ◌==◌, if◌then◌else◌, List, [], ◌∷◌, ◌≡◌,
}

-- pthread_setschedparam and pthread_getschedparam on one thread of a kernel state: a return code with
-- the state after the call, and a return code with the policy and the priority read.
pub record Scheduling : Type 1 where
  pub Kernel : Type 0
  pub set_param : (thread policy priority : ℕ) → Kernel → ℕ × Kernel
  pub get_param : (thread : ℕ) → Kernel → ℕ × ℕ × ℕ

module _ (os : Scheduling) where
  open os use {Kernel, set_param, get_param}

  -- `rt_threads` is g_rt_threads.
  pub record State : Type 0 where
    pub kernel : Kernel
    pub rt_threads : ℕ

  unfoldable pub set_priority : (thread policy priority : ℕ) → State → Bool × State
  set_priority thread policy priority s =
      let (set, after) = set_param thread policy priority s.kernel in
      let (got, actual_policy, actual_priority) = get_param thread after in
      if not (set == 0)
      then (false, record s { kernel = after })
      else (if not (got == 0)
          then (false, record s { kernel = after })
          else (let granted = (actual_policy == policy) && (actual_priority == priority) in
              if granted
              then (true, record { kernel = after; rt_threads = s.rt_threads + 1 })
              else (false, record s { kernel = after })))
