-- ===== src/Overflow/Broken.antt =====
-- cases/04-overflow-removes-check/broken.cpp: the check that adds.
use systems_postmortems.Prelude.{ℕ, Bool, false, ◌||◌, Option, some, ◌>>=◌, if◌then◌else◌}
use systems_postmortems.Prelude.Int.{ℤ, pos, ltb_ℤ, leb_ℤ}
use systems_postmortems.Overflow.Semantics.{buffer_size, add_int, add_wrap}

-- `fits` as the language defines it.
unfoldable pub fits : ℤ → ℤ → Option Bool
unfolding add_int
fits offset length = if ltb_ℤ offset (pos 0) || ltb_ℤ length (pos 0) then some false else (do
  end ← add_int offset length
  if ltb_ℤ end offset then some false else some (leb_ℤ end buffer_size))

-- `fits` as -O0 and -fwrapv compile it: the addition wraps and the guard is there.
unfoldable pub fits_wrapping : ℤ → ℤ → Option Bool
unfolding add_wrap
fits_wrapping offset length =
    if ltb_ℤ offset (pos 0) || ltb_ℤ length (pos 0)
    then some false
    else (let end = add_wrap offset length in
        if ltb_ℤ end offset then some false else some (leb_ℤ end buffer_size))

-- `fits` as -O2 compiles it: the addition wraps and only the comparison with the size is left.
unfoldable pub fits_optimised : ℤ → ℤ → Option Bool
unfolding add_wrap
fits_optimised offset length =
    if ltb_ℤ offset (pos 0) || ltb_ℤ length (pos 0)
    then some false
    else some (leb_ℤ (add_wrap offset length) buffer_size)

-- What `main` prints and returns, for one build of `fits` and the values of the two volatiles.
pub record Report : Type 0 where
  pub small : Bool
  pub huge : Bool
  pub approved : Bool  -- the warning behind `if (huge)`
  pub status : ℕ

unfoldable pub main : (ℤ → ℤ → Option Bool) → ℤ → ℤ → Option Report
main check v_offset v_length = do
  small ← check (pos 0) (pos 16)
  huge ← check v_offset v_length
  some (record { small = small; huge = huge; approved = huge; status = if huge then 1 else 0 })
