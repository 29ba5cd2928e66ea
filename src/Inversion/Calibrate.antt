-- ===== src/Inversion/Calibrate.antt =====
-- `calibrate` of case 06, the same text in both programs. The clock's two readings and the floating
-- point are parameters.
use systems_postmortems.Prelude.{ℕ, if◌then◌else◌}
use systems_postmortems.Prelude.Int.{ℤ, pos, leb_ℤ}
use systems_postmortems.Inversion.Work.{spin_work}

-- The `double` operations that the source uses.
pub record Doubles : Type 1 where
  pub Double : Type 0
  pub of_int : ℤ → Double
  pub over : Double → Double → Double
  pub times : Double → Double → Double
  pub to_u64 : Double → ℕ

pub record Calibration : Type 0 where
  pub iterations : ℕ
  pub measured_us : ℤ

abbrev pub probe : ℕ
probe = 20_000_000

-- `elapsed_ns` and `measured_us` are what the clock measures of the two runs of `spinWork`; the second
-- component is the sink after the call.
module _ (fp : Doubles) where
  open fp use {of_int, over, times, to_u64}

  unfoldable pub calibrate : (target_us elapsed_ns measured_us : ℤ) (sink : ℕ) → Calibration × ℕ
  calibrate target_us elapsed_ns measured_us sink =
      let probed = spin_work probe sink in
      if leb_ℤ elapsed_ns (pos 0)
      then (record { iterations = probe; measured_us = pos 0 }, probed)
      else (let per_ns = over (of_int (pos probe)) (of_int elapsed_ns) in
          let iterations = to_u64 (times (times per_ns (of_int target_us)) (of_int (pos 1000))) in
          (
            record { iterations = iterations; measured_us = measured_us },
            spin_work iterations probed,
          ))
