-- ===== src/Counter/Broken/Extremes.antt =====
-- The counts of `Range` are all met: which numbers some interleaving of the plain counter can count.
use systems_postmortems.Prelude.{
  ℕ, ◌+◌, ◌-◌, ◌*◌, ◌%◌, ◌^◌, ◌≤◌, ◌<◌, ◌≡◌, ◌≢◌, ◌↔◌, subst, refl, true, arith, ◌∙◌, ap,
  ℕ_discrete,
}
use systems_postmortems.Threads.{System, Reach, returned}
use systems_postmortems.Threads.Table.{sum_over-const, sum_over-store, store}
use systems_postmortems.Counter.Broken.{Metrics, Pc, head, loaded, program, metrics}
use systems_postmortems.Counter.Broken.Range.{counted_range}
use systems_postmortems.Counter.Broken.Bounds.{rounds, stored, per-small}
use systems_postmortems.Counter.Broken.Schedules.{IsOpen, all_started, load, save, solo, After}
use systems_postmortems.Counter.Broken.Drain.{Drained, AtHead, drain, join_all}

module _ (count per : ℕ) (small : count * per < 2 ^ 64) where
  -- `main` returns from a run that counts `n`.
  abbrev pub Counts : ℕ → Type 0
  Counts n =
      (k : ℕ) × (s : System Metrics Pc) × Reach (program count per) metrics k s
      × (returned (program count per) s ≡ true)
      × (s.shared.requests_handled ≡ n)

  abbrev opened : System Metrics Pc
  opened = record { shared = metrics; spawned = count; joined = 0; pcs = λ _. head 0 }

  opened-IsOpen : IsOpen count per small opened
  opened-IsOpen = all_started count per small

  Counts-ended :
      (s : System Metrics Pc) (n : ℕ)
      → IsOpen count per small s
      → ((j : ℕ) → j < count → s.pcs j ≡ head per)
      → s.shared.requests_handled ≡ n
      → Counts n
  Counts-ended s n o ends e =
      let (t, (k, r), back, same) = join_all count per small o ends in (k, t, r, back, ground arith)

  -- A worker that loaded before the others finished stores last.
  Counts-last :
      {s : System Metrics Pc} (last v : ℕ)
      → IsOpen count per small s
      → AtHead count per small s last
      → last < count
      → 0 < per
      → s.pcs last ≡ loaded (per - 1) v
      → Counts ((v + 1) % 2 ^ 64)
  Counts-last last v o heads lt pos e =
      let (t, d, _) = drain count per small last count (omega arith) o heads in
      Counts-ended _ _ (save count per small last (per - 1) v d.open_ lt (d.skipped ∙ e))
        (λ j jlt. ground (arith, d.ended j jlt, per-small count per small last lt)) refl

  -- Worker 0 loads 0, worker 1 has `c` rounds, worker 0 stores 1, worker 1 has all but one of its
  -- rounds behind it.
  record Stale (c : ℕ) (s : System Metrics Pc) : Type 0 where
    open_ : IsOpen count per small s
    at : s.pcs 1 ≡ head (per - 1)
    first : s.pcs 0 ≡ head 1
    heads : (j : ℕ) → j ≢ 0 → j ≢ 1 → s.pcs j ≡ head 0
    counted : s.shared.requests_handled + c ≡ per

  abbrev behind : System Metrics Pc
  behind = record opened { pcs = store (λ _. head 0) 0 (loaded 0 0) }

  Stale-After :
      (c : ℕ) (t : System Metrics Pc)
      → 2 ≤ count
      → c < per
      → After count per small behind 1 (0 + c) t
      → (s : System Metrics Pc) × Stale c s
  Stale-After c t many lt f =
      let (u, g) =
        solo count per small (per - 1 - c)
          {s = record t { shared = one; pcs = store t.pcs 0 (head 1) }} 1 c
          (save count per small 0 0 0 f.open_ (omega arith) (f.others 0 (omega arith)))
          (omega arith) (ground (arith, f.at)) (omega arith) in
      (
        u,
        record {
          open_ = g.open_;
          at = ground (arith, g.at);
          first = ground (arith, g.others 0);
          heads = λ j ne0 ne1. ground (arith, g.others j ne1, f.others j ne1);
          counted = ground (arith, g.gained, f.at);
        },
      )
    where
      one : Metrics
      one = record { requests_handled = 1 }

  stale : (c : ℕ) → 2 ≤ count → c < per → (s : System Metrics Pc) × Stale c s
  stale c many lt =
      let a =
        load count per small {s = opened} 0 0 opened-IsOpen (omega arith) refl (omega arith) in
      let (t, f) = solo count per small c {s = behind} 1 0 a (omega arith) refl (omega arith) in
      Stale-After c t many lt f

  Stale-AtHead : {s : System Metrics Pc} (c : ℕ) → c < per → Stale c s → AtHead count per small s 1
  Stale-AtHead c lt f = λ j jlt ne. elim (ℕ_discrete j 0) [
    | yes zeroth ↦ (1, ground (arith, f.first), omega arith)
    | no other ↦ (0, f.heads j other ne, omega arith)
  ]

  -- It has lost `c` of them.
  Stale-stored :
      {s : System Metrics Pc} (c : ℕ)
      → 2 ≤ count
      → c < per
      → Stale c s
      → stored count per small s.pcs ≡ per
  Stale-stored {s} c many lt f = omega (
    arith,
    ap rounds f.first,
    ap rounds f.at,
    sum_over-store rounds count s.pcs 0 (head 0) (omega arith),
    sum_over-store rounds count (store s.pcs 0 (head 0)) 1 (head 0) (omega arith),
    sum_over-const count 0 (λ j. rounds (store (store s.pcs 0 (head 0)) 1 (head 0) j))
        (λ j jlt. ground (arith, f.heads j)),
  )

  -- Then all but worker 1 finish.
  Drained-stored :
      {s t : System Metrics Pc} (c : ℕ)
      → 2 ≤ count
      → c < per
      → Stale c s
      → Drained count per small s 1 count t
      → stored count per small t.pcs + 1 ≡ count * per
  Drained-stored {s} {t} c many lt f d = omega (
    arith,
    ap rounds (d.skipped ∙ f.at),
    sum_over-store rounds count t.pcs 1 (head per) (omega arith),
    sum_over-const count per (λ j. rounds (store t.pcs 1 (head per) j))
        (λ j jlt. ground (arith, d.ended j jlt)),
  )

  -- The count that worker 1 loads last, and stores last.
  Counts-stale :
      {s : System Metrics Pc} (c n : ℕ)
      → 2 ≤ count
      → c < per
      → Stale c s
      → per < n + c
      → n + c ≤ count * per
      → Counts n
  Counts-stale {s} c n many lt f low high =
      let (t, d, between) =
        drain count per small 1 count (omega arith) f.open_ (Stale-AtHead c lt f) in
      let most : n ≤ t.shared.requests_handled + 1 =
        omega (arith, f.counted, d.kept, Stale-stored c many lt f, Drained-stored c many lt f d) in
      let (u, p) = between (n - 1) (omega (arith, f.counted)) (omega arith) in
      let at : u.pcs 1 ≡ head (per - 1) = p.skipped ∙ f.at in
      let o = load count per small 1 (per - 1) p.open_ (omega arith) at (omega arith) in
      let heads : AtHead count per small
          (record u { pcs = store u.pcs 1 (loaded (per - 1) u.shared.requests_handled) }) 1 =
        λ j jlt ne. let (a, e, le) = p.heads j jlt ne in (a, ground (arith, e), le) in
      subst Counts (omega (arith, p.counted))
        (Counts-last 1 u.shared.requests_handled o heads (omega arith) (omega arith) refl)

  pub attained : (n : ℕ) → 2 ≤ count → 2 ≤ per → 2 ≤ n → n ≤ count * per → Counts n
  attained n many two low high =
      let c : ℕ = per + 1 - n in
      let (s, f) = stale c many (omega arith) in
      Counts-stale c n many (omega arith) f (omega arith) (grind arith)

  -- With at least two workers and two rounds each, and a product below 2 ^ 64, some interleaving lets
  -- `main` return with a count exactly when it is at least 2 and at most what is expected.
  pub counts_iff : (n : ℕ) → 2 ≤ count → 2 ≤ per → Counts n ↔ ((2 ≤ n) × (n ≤ count * per))
  counts_iff n many two = (
    λ (k, s, r, back, e).
        let (low, high) = counted_range count per small (omega arith) two r back in
        (omega arith, omega arith),
    λ (low, high). attained n many two low high,
  )
