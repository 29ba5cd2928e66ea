-- ===== src/Transfer/Fixed/Finish.antt =====
-- Every state of fixed.cpp can go on to the return of `main`, for an algorithm that returns when
-- nothing is in its way, and that does not hold on to a mutex for ever.
use systems_postmortems.Transfer.Fixed.Contract.{IsLockAlgorithm, IsProgressive}
use systems_postmortems.Prelude.{
  ℕ, zero, suc, ◌≤◌, false, ◌≡◌, inl, inr, refl, ap, ◌∙◌, some, arith,
}
use systems_postmortems.Prelude.Int.{pos}
use systems_postmortems.Transfer.Broken.{Thread, one, two}
use systems_postmortems.Transfer.Fixed.{Algorithm, ended, System, at_pc, Reach, later, main}
use systems_postmortems.Transfer.Fixed.Progress.{ended-main}
use systems_postmortems.Transfer.Fixed.Exclusion.{main-balances}
use systems_postmortems.Transfer.Fixed.Steps.{
  partner, Later, now, Later-step, Later-trans, Reach-Later, holds, left, held, held-IsStep,
  solo-IsStep,
}

module _ (alg : Algorithm) (law : IsLockAlgorithm alg) (moves : IsProgressive alg law) where
  -- A thread can go on until it holds no mutex.
  drain :
      (n : ℕ) (t : Thread) (s : System alg)
      → held alg law moves (at_pc alg s t) ≤ n
      → (u : System alg) × Later alg s u
        × (holds alg law moves (at_pc alg u t) ≡ false)
        × (at_pc alg u (partner t) ≡ at_pc alg s (partner t))
  drain zero t s le = elim (held-IsStep alg law moves t s) [
    | inl free ↦ (s, now, free, refl)
    | inr (u, e, x) ↦ absurd (omega (arith, le, x.falls))
  ]
  drain (suc n) t s le = elim (held-IsStep alg law moves t s) [
    | inl free ↦ (s, now, free, refl)
    | inr (u, e, x) ↦
        let (v, l, free, same) = drain n t u (omega (arith, le, x.falls)) in
        (v, Later-step t e l, free, same ∙ x.other_at)
  ]

  -- A thread can go on to its end if the other one holds no mutex.
  complete :
      (n : ℕ) (t : Thread) (s : System alg)
      → Reach alg s
      → holds alg law moves (at_pc alg s (partner t)) ≡ false
      → left alg law moves (at_pc alg s t) ≤ n
      → (u : System alg) × Later alg s u
        × (at_pc alg u t ≡ ended)
        × (at_pc alg u (partner t) ≡ at_pc alg s (partner t))
  complete zero t s r alone le = elim (solo-IsStep alg law moves t s r alone) [
    | inl over ↦ (s, now, over, refl)
    | inr (u, e, x) ↦ absurd (omega (arith, le, x.falls))
  ]
  complete (suc n) t s r alone le = elim (solo-IsStep alg law moves t s r alone) [
    | inl over ↦ (s, now, over, refl)
    | inr (u, e, x) ↦
        let (v, l, over, same) =
          complete n t u (later r t e) (rw x.other_at alone) (omega (arith, le, x.falls)) in
        (v, Later-step t e l, over, same ∙ x.other_at)
  ]

  -- For an algorithm that keeps the contract and makes progress: from every reachable state, whatever
  -- the two threads hold, they can go on until `main` returns 0 with each account back at 1000.
  pub can_return :
      {s : System alg}
      → Reach alg s
      → (u : System alg) × Later alg s u
        × (main alg u
            ≡ some (record { alice_balance = pos 1000; bob_balance = pos 1000; status = 0 }))
  can_return {s} r =
      let (a, la, free, _) = drain (held alg law moves s.ones) one s (omega arith) in
      let ra = Reach-Later r la in
      let (b, lb, over, same) = complete (left alg law moves a.twos) two a ra free (omega arith) in
      let rb = Reach-Later ra lb in
      let (c, lc, over', same') =
        complete (left alg law moves b.ones) one b rb (ground (arith, over)) (omega arith) in
      let ends = ended-main alg law c over' (same' ∙ over) in
      (
        c,
        Later-trans (Later-trans la lb) lc,
        ends ∙ ap some (main-balances alg law (Reach-Later rb lc) ends),
      )
