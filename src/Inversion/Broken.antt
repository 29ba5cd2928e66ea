-- ===== src/Inversion/Broken.antt =====
-- `main` of cases/06-priority-inversion/broken.cpp, over what the machine answers.
use systems_postmortems.Prelude.{
  ℕ, ◌/◌, ◌*◌, Bool, ◌||◌, Option, none, some, List, ltb, ◌==◌, if◌then◌else◌,
}
use systems_postmortems.Prelude.Int.{ℤ, pos, ltb_ℤ}
use systems_postmortems.Inversion.Calibrate.{Doubles, Calibration, calibrate}
use systems_postmortems.Inversion.Control.{control}
use systems_postmortems.Inversion.Priority.Granted.{successes}

-- kCriticalSection, in microseconds
abbrev pub critical_us : ℕ
critical_us = 5000

-- What the machine answers: the return code of the affinity call, what the clock measured of the two
-- calibration runs, what the three calls of `setPriority` returned, and the waits that the control
-- loop measured. `fp` is the floating point.
pub record Machine : Type 0 where
  pub pin_rc : ℕ
  pub elapsed_ns : ℤ
  pub measured_us : ℤ
  pub granted : List Bool
  pub waits : ℕ → ℤ

pub data Conclusion : Type 0 where
  calibration_failed inconclusive inverted not_inverted : Conclusion

pub record Report : Type 0 where
  pub pinned : Bool
  pub calibration : Calibration
  pub measured : Option (ℕ × ℤ)  -- the threads granted SCHED_FIFO and the worst wait
  pub conclusion : Conclusion
  pub status : ℕ

-- What follows the joins, for the values of g_rt_threads and g_worst_block_us.
unfoldable pub judge : (pinned : Bool) → Calibration → (rt : ℕ) → (worst : ℤ) → Report
judge pinned c rt worst =
    if ltb rt 3
    then record {
      pinned = pinned;
      calibration = c;
      measured = some (rt, worst);
      conclusion = inconclusive;
      status = 2;
    }
    else (let is_inverted = ltb_ℤ (pos (2 * critical_us)) worst in
        record {
          pinned = pinned;
          calibration = c;
          measured = some (rt, worst);
          conclusion = if is_inverted then inverted else not_inverted;
          status = if is_inverted then 1 else 0;
        })

unfoldable pub main : Doubles → Machine → Report
unfolding judge
main fp m =
    let c = (calibrate fp (pos critical_us) m.elapsed_ns m.measured_us 0).0 in
    let pinned = m.pin_rc == 0 in
    if ltb_ℤ c.measured_us (pos (critical_us / 2)) || ltb_ℤ (pos (critical_us * 2)) c.measured_us
    then record {
      pinned = pinned;
      calibration = c;
      measured = none;
      conclusion = calibration_failed;
      status = 3;
    }
    else judge pinned c (successes m.granted) (control m.waits (pos 0))
