-- ===== src/Counter/Broken/Drain.antt =====
-- Schedules of case 01's plain counter: letting all workers but one finish, and joining them.
use systems_postmortems.Prelude.{
  ℕ, zero, suc, ◌+◌, ◌-◌, ◌*◌, ◌^◌, ◌≤◌, ◌<◌, ◌≡◌, ◌≢◌, refl, true, sym, subst, ◌∙◌, arith,
  ℕ_discrete, dec_lt,
}
use systems_postmortems.Threads.{System, main, later, step, returned}
use systems_postmortems.Counter.Broken.{Metrics, Pc, head, program}
use systems_postmortems.Counter.Broken.Bounds.{stored}
use systems_postmortems.Counter.Broken.Schedules.{Reachable, IsOpen, After, solo}

module _ (count per : ℕ) (small : count * per < 2 ^ 64) where
  -- From `s` the first `c` workers but `skip` have run to their end, one after the other.
  pub record Drained (s : System Metrics Pc) (skip c : ℕ) (t : System Metrics Pc) : Type 0 where
    pub open_ : IsOpen count per small t
    pub ended : (j : ℕ) → j < c → j ≢ skip → t.pcs j ≡ head per
    pub skipped : t.pcs skip ≡ s.pcs skip
    pub others : (j : ℕ) → c ≤ j → t.pcs j ≡ s.pcs j
    pub kept :
        t.shared.requests_handled + stored count per small s.pcs
        ≡ s.shared.requests_handled + stored count per small t.pcs

  abbrev pub AtHead : System Metrics Pc → ℕ → Type 0
  AtHead s skip = (j : ℕ) → j < count → j ≢ skip → (a : ℕ) × (s.pcs j ≡ head a) × (a ≤ per)

  -- From `s` all but worker `skip` have run until the count was `n`.
  pub record Paused (s : System Metrics Pc) (skip n : ℕ) (u : System Metrics Pc) : Type 0 where
    pub open_ : IsOpen count per small u
    pub heads : AtHead u skip
    pub skipped : u.pcs skip ≡ s.pcs skip
    pub counted : u.shared.requests_handled ≡ n

  -- The count can be made to stop anywhere between that of `s` and that of `t`.
  abbrev pub Between : System Metrics Pc → ℕ → System Metrics Pc → Type 0
  Between s skip t =
      (n : ℕ)
      → s.shared.requests_handled ≤ n
      → n ≤ t.shared.requests_handled
      → (u : System Metrics Pc) × Paused s skip n u

  Drained-AtHead :
      {s t : System Metrics Pc} (skip c : ℕ) → AtHead s skip → Drained s skip c t → AtHead t skip
  Drained-AtHead {s} {t} skip c heads d = λ j lt ne. elim (dec_lt j c) [
    | yes before ↦ (per, d.ended j before ne, omega arith)
    | no after ↦ let (a, e, le) = heads j lt ne in (a, d.others j (omega arith) ∙ e, le)
  ]

  -- Worker `c` runs `b` rounds after the ones before it.
  Paused-solo :
      {s t u : System Metrics Pc} (skip c a b n : ℕ)
      → c ≢ skip
      → a + b ≤ per
      → AtHead s skip
      → Drained s skip c t
      → t.pcs c ≡ head a
      → n ≡ t.shared.requests_handled + b
      → After count per small t c (a + b) u
      → Paused s skip n u
  Paused-solo {s} {t} {u} skip c a b n ne le heads d e q f = record {
    open_ = f.open_;
    heads = λ j lt jne. elim (ℕ_discrete j c) [
      | yes same ↦ (a + b, ground (arith, f.at), le)
      | no differ ↦
          let (k, at, kle) = Drained-AtHead skip c heads d j lt jne in
          (k, f.others j differ ∙ at, kle)
    ];
    skipped = f.others skip (λ p. ne (sym p)) ∙ d.skipped;
    counted = ground (arith, f.gained, e);
  }

  drain_one :
      {s t : System Metrics Pc} (skip c : ℕ)
      → c < count
      → AtHead s skip
      → Drained s skip c t
      → Between s skip t
      → (u : System Metrics Pc) × Drained s skip (suc c) u × Between s skip u
  drain_one {s} {t} skip c lt heads d between = elim (ℕ_discrete c skip) [
    | yes same ↦ (
      t,
      record {
        open_ = d.open_;
        ended = λ j jlt ne. d.ended j (omega arith) ne;
        skipped = d.skipped;
        others = λ j le. d.others j (omega arith);
        kept = d.kept;
      },
      between,
    )
    | no ne ↦
        let (a, e, le) = heads c lt ne in
        let (u, f) =
          solo count per small (per - a) c a d.open_ lt (d.others c (omega arith) ∙ e)
            (omega arith) in
        (
          u,
          record {
            open_ = f.open_;
            ended = λ j jlt jne. ground (arith, f.at, f.others j, d.ended j);
            skipped = f.others skip (λ q. ne (sym q)) ∙ d.skipped;
            others = λ j cle. f.others j (omega arith) ∙ d.others j (omega arith);
            kept = omega (arith, f.kept, d.kept);
          },
          λ n low high. elim (dec_lt n t.shared.requests_handled) [
            | yes before ↦ between n low (omega arith)
            | no after ↦
                let b : ℕ = n - t.shared.requests_handled in
                let at = d.others c (omega arith) ∙ e in
                let fits : a + b ≤ per = ground (arith, f.gained, at) in
                let (v, g) = solo count per small b c a d.open_ lt at fits in
                (v, Paused-solo skip c a b n ne fits heads d at (omega arith) g)
          ],
        )
  ]

  pub drain :
      {s : System Metrics Pc} (skip c : ℕ)
      → c ≤ count
      → IsOpen count per small s
      → AtHead s skip
      → (t : System Metrics Pc) × Drained s skip c t × Between s skip t
  drain {s} skip zero le o heads = (
    s,
    record {
      open_ = o;
      ended = λ j lt ne. absurd (omega arith);
      skipped = refl;
      others = λ j cle. refl;
      kept = refl;
    },
    λ n low high. (s, record { open_ = o; heads = heads; skipped = refl; counted = omega arith }),
  )
  drain skip (suc c) le o heads =
      let (t, d, between) = drain skip c (omega arith) o heads in
      drain_one skip c (omega arith) heads d between

  -- With every worker at its end, `main` joins them all.
  join_some :
      {s : System Metrics Pc} (c : ℕ)
      → c ≤ count
      → IsOpen count per small s
      → ((j : ℕ) → j < count → s.pcs j ≡ head per)
      → Reachable count per small (record s { joined = c })
  unfolding program step
  join_some {s} zero le o ends =
      let q : s ≡ record s { joined = 0 } = λ i. record s { joined = o.joined i } in
      subst (Reachable count per small) q o.reach
  join_some {s} (suc c) le o ends =
      let (k, r) = join_some c (omega arith) o ends in
      (suc k, later r main (ground (arith, o.spawned, ends c)))

  pub join_all :
      {s : System Metrics Pc}
      → IsOpen count per small s
      → ((j : ℕ) → j < count → s.pcs j ≡ head per)
      → (t : System Metrics Pc) × Reachable count per small t
        × (returned (program count per) t ≡ true)
        × (t.shared ≡ s.shared)
  unfolding program
  join_all {s} o ends = (
    record s { joined = count },
    join_some count (omega arith) o ends,
    ground (arith, o.spawned),
    refl,
  )
