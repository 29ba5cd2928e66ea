-- ===== src/Inversion/Priority/Granted.antt =====
-- What a granted priority means, and that `rt_threads` counts exactly those.
use systems_postmortems.Prelude.{
  ℕ, ◌+◌, ◌≡◌, ◌↔◌, Bool, true, false, List, [], ◌∷◌, if◌then◌else◌, arith,
}
use systems_postmortems.Inversion.Priority.{Scheduling, State, set_priority}

-- How many of the answers are yes: the value of g_rt_threads after them.
unfoldable pub successes : List Bool → ℕ
successes [] = 0
successes (true ∷ bs) = successes bs + 1
successes (false ∷ bs) = successes bs

module _ (os : Scheduling) where
  open os use {Kernel, set_param, get_param}

  -- `setPriority` succeeds exactly when both calls return 0 and the policy and priority read back are
  -- those asked for; the kernel is then as the first call left it, whatever the outcome, and the count
  -- of real-time threads has grown by one exactly on success.
  pub set_priority_iff :
      (thread policy priority : ℕ) (s : State os)
      → (((set_priority os thread policy priority s).0 ≡ true) ↔ (
          ((set_param thread policy priority s.kernel).0 ≡ 0)
          × (get_param thread (set_param thread policy priority s.kernel).1
              ≡ (0, policy, priority))))
        × ((set_priority os thread policy priority s).1.kernel
            ≡ (set_param thread policy priority s.kernel).1)
        × ((set_priority os thread policy priority s).1.rt_threads ≡ (
            if (set_priority os thread policy priority s).0
            then s.rt_threads + 1
            else s.rt_threads))
  unfolding set_priority
  set_priority_iff thread policy priority s =
      ((λ h. ground arith, λ h. ground arith), ground arith, ground arith)

  -- Requests in the order in which the atomic additions of their threads happen.
  abbrev pub Requests : Type 0
  Requests = List (ℕ × ℕ × ℕ)

  unfoldable pub ask_all : Requests → State os → List Bool × State os
  ask_all [] s = ([], s)
  ask_all ((thread, policy, priority) ∷ rs) s =
      let (granted, t) = set_priority os thread policy priority s in
      let (answers, u) = ask_all rs t in (granted ∷ answers, u)

  -- After any sequence of requests the count of real-time threads has grown by the number of requests
  -- that returned true.
  pub rt_threads-ask_all :
      (rs : Requests) (s : State os)
      → (ask_all rs s).1.rt_threads ≡ s.rt_threads + successes (ask_all rs s).0
  unfolding ask_all successes set_priority
  rt_threads-ask_all [] s = omega arith
  rt_threads-ask_all ((thread, policy, priority) ∷ rs) s =
      let t = (set_priority os thread policy priority s).1 in
      ground (arith, rt_threads-ask_all rs t)
