-- ===== src/FalseSharing/Verdict.antt =====
-- How the two programs of case 05 judge the same times.
use systems_postmortems.Prelude.{
  ℕ, ◌≡◌, ◌⊎◌, ◌↔◌, inl, inr, refl, true, false, ◌&&◌, Bool-cases, arith,
}
use systems_postmortems.Prelude.Int.{ℤ, pos}
use systems_postmortems.FalseSharing.Run.{Doubles, throughput}
use systems_postmortems.FalseSharing.Broken
use systems_postmortems.FalseSharing.Fixed

-- For the same times and an asymmetric order on the doubles, both print the same rates and return 0
-- whatever the verdict; they give the same verdict exactly if four threads are faster or slower than
-- twice one thread, and what fixed.cpp calls scaled broken.cpp does too.
pub main_verdicts :
    (fp : Doubles) (base base' : ℕ) (one_us four_us : ℤ)
    → ((a b : fp.Double) → fp.less a b ≡ true → fp.less b a ≡ false)
    → let m = Broken.main fp base one_us four_us in
      let n = Fixed.main fp base' one_us four_us in
      let twice = fp.times m.one (fp.of_int (pos 2)) in
      (m.one ≡ n.one)
      × (m.four ≡ n.four)
      × (m.status ≡ 0)
      × (n.status ≡ 0)
      × ((m.scaled ≡ n.scaled) ↔ ((fp.less m.four twice ≡ true) ⊎ (fp.less twice m.four ≡ true)))
      × ((n.scaled && m.scaled) ≡ n.scaled)
unfolding Broken.main Fixed.main
main_verdicts fp base base' one_us four_us asym =
    let one = throughput fp 1 one_us in
    let four = throughput fp 4 four_us in
    let twice = fp.times one (fp.of_int (pos 2)) in
    (
      refl,
      refl,
      refl,
      refl,
      (
        λ e. elim (Bool-cases (fp.less four twice)) [
          | inl t ↦ inl t
          | inr f ↦ inr (ground (arith, e, f))
        ],
        λ h. ground (arith, h, asym four twice, asym twice four),
      ),
      ground (arith, asym four twice, asym twice four),
    )
