-- ===== src/Overflow/Fixed.antt =====
-- cases/04-overflow-removes-check/fixed.cpp: the check that subtracts.
use systems_postmortems.Prelude.{
  ℕ, ◌≡◌, Bool, true, false, ◌||◌, Option, some, ◌>>=◌, if◌then◌else◌, arith,
}
use systems_postmortems.Prelude.Int.{ℤ, pos, ltb_ℤ, leb_ℤ, IsInt, ◌+ℤ◌, ◌-ℤ◌}
use systems_postmortems.Overflow.Semantics.{buffer_size, sub_int, within_buffer}

unfoldable pub fits : ℤ → ℤ → Option Bool
unfolding sub_int
fits offset length =
    if ltb_ℤ offset (pos 0) || ltb_ℤ length (pos 0)
    then some false
    else (if ltb_ℤ buffer_size offset
        then some false
        else (do room ← sub_int buffer_size offset; some (leb_ℤ length room)))

-- What `main` prints and returns, for the values of the two volatiles.
pub record Report : Type 0 where
  pub small : Bool
  pub huge : Bool
  pub at_1024_0 : Bool
  pub at_1023_1 : Bool
  pub at_1023_2 : Bool
  pub at_1024_1 : Bool
  pub status : ℕ

unfoldable pub main : ℤ → ℤ → Option Report
unfolding fits
main v_offset v_length = do
  small ← fits (pos 0) (pos 16)
  huge ← fits v_offset v_length
  a ← fits (pos 1024) (pos 0)
  b ← fits (pos 1023) (pos 1)
  c ← fits (pos 1023) (pos 2)
  d ← fits (pos 1024) (pos 1)
  some (record {
    small = small;
    huge = huge;
    at_1024_0 = a;
    at_1023_1 = b;
    at_1023_2 = c;
    at_1024_1 = d;
    status = if huge then 1 else 0;
  })

-- For two `int` arguments the check is defined, and answers whether both are non-negative and the
-- exact end of the write is within the buffer.
pub fits-within_buffer :
    (offset length : ℤ)
    → IsInt offset
    → IsInt length
    → fits offset length ≡ some (within_buffer offset length)
unfolding fits within_buffer ◌+ℤ◌ ◌-ℤ◌
fits-within_buffer offset length ho hl = ground arith

-- For any two `int` values of the volatiles, `main` has no undefined behaviour, answers yes, yes,
-- no, no at the boundary, and returns 1 exactly when the volatile write is within the buffer.
pub main_lem :
    (offset length : ℤ)
    → IsInt offset
    → IsInt length
    → main offset length
      ≡ some (record {
        small = true;
        huge = within_buffer offset length;
        at_1024_0 = true;
        at_1023_1 = true;
        at_1023_2 = false;
        at_1024_1 = false;
        status = if within_buffer offset length then 1 else 0;
      })
unfolding main ◌-ℤ◌
main_lem offset length ho hl = rw (fits-within_buffer offset length ho hl)
