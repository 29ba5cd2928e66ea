-- ===== src/Inversion/Fixed.antt =====
-- `main` of cases/06-priority-inversion/fixed.cpp, over what the machine answers.
use systems_postmortems.Prelude.{
  ℕ, ◌/◌, ◌*◌, Bool, ◌||◌, Option, none, some, List, ltb, ◌==◌, if◌then◌else◌,
}
use systems_postmortems.Prelude.Int.{ℤ, pos, ltb_ℤ, leb_ℤ}
use systems_postmortems.Inversion.Calibrate.{Doubles, Calibration, calibrate}
use systems_postmortems.Inversion.Control.{control}
use systems_postmortems.Inversion.Priority.Granted.{successes}

-- kCriticalSection, in microseconds
abbrev pub critical_us : ℕ
critical_us = 5000

-- As in broken.cpp, and the return code of pthread_mutexattr_setprotocol.
pub record Machine : Type 0 where
  pub protocol_rc : ℕ
  pub pin_rc : ℕ
  pub elapsed_ns : ℤ
  pub measured_us : ℤ
  pub granted : List Bool
  pub waits : ℕ → ℤ

pub data Conclusion : Type 0 where
  calibration_failed inconclusive bounded still_exceeds : Conclusion

pub record Report : Type 0 where
  pub inherits : Bool  -- "enabled" or "NOT SUPPORTED"
  pub pinned : Bool
  pub calibration : Calibration
  pub measured : Option (ℕ × ℤ)
  pub conclusion : Conclusion
  pub status : ℕ

-- What follows the joins, for the values of g_rt_threads and g_worst_block_us.
unfoldable pub judge : (inherits pinned : Bool) → Calibration → (rt : ℕ) → (worst : ℤ) → Report
judge inherits pinned c rt worst =
    if ltb rt 3
    then record {
      inherits = inherits;
      pinned = pinned;
      calibration = c;
      measured = some (rt, worst);
      conclusion = inconclusive;
      status = 2;
    }
    else (let is_bounded = leb_ℤ worst (pos (2 * critical_us)) in
        record {
          inherits = inherits;
          pinned = pinned;
          calibration = c;
          measured = some (rt, worst);
          conclusion = if is_bounded then bounded else still_exceeds;
          status = if is_bounded then 0 else 1;
        })

unfoldable pub main : Doubles → Machine → Report
unfolding judge
main fp m =
    let c = (calibrate fp (pos critical_us) m.elapsed_ns m.measured_us 0).0 in
    let inherits = m.protocol_rc == 0 in
    let pinned = m.pin_rc == 0 in
    if ltb_ℤ c.measured_us (pos (critical_us / 2)) || ltb_ℤ (pos (critical_us * 2)) c.measured_us
    then record {
      inherits = inherits;
      pinned = pinned;
      calibration = c;
      measured = none;
      conclusion = calibration_failed;
      status = 3;
    }
    else judge inherits pinned c (successes m.granted) (control m.waits (pos 0))
