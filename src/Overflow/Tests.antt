-- ===== src/Overflow/Tests.antt =====
-- Runs of case 04 at the inputs of the sources, and its theorems at concrete inputs.
use systems_postmortems.Prelude.{◌≡◌, refl, true, false, none, some, if◌then◌else◌, arith}
use systems_postmortems.Prelude.Int.{ℤ, pos, IsInt, ◌+ℤ◌}
use systems_postmortems.Overflow.Semantics.{within_buffer, overflows}
use systems_postmortems.Overflow.Broken.{fits, fits_wrapping, fits_optimised}
use systems_postmortems.Overflow.Fixed
use systems_postmortems.Overflow.Fixed.{fits-within_buffer, main_lem}
use systems_postmortems.Overflow.Builds.{fits_lem, fits_wrapping-within_buffer, builds_refine}

abbrev two_billion : ℤ
two_billion = pos 2_000_000_000

two_billion-IsInt : IsInt two_billion
two_billion-IsInt = record { above = omega arith; below = omega arith }

fits_undefined : fits two_billion two_billion ≡ none
unfolding fits ◌+ℤ◌
fits_undefined = refl

fits_wrapping_no : fits_wrapping two_billion two_billion ≡ some false
unfolding fits_wrapping
fits_wrapping_no = refl

fits_optimised_yes : fits_optimised two_billion two_billion ≡ some true
unfolding fits_optimised
fits_optimised_yes = refl

fits-within_buffer_example :
    Fixed.fits two_billion two_billion ≡ some (within_buffer two_billion two_billion)
fits-within_buffer_example =
    fits-within_buffer two_billion two_billion two_billion-IsInt two_billion-IsInt

fits_lem_example : fits two_billion two_billion ≡ (
    if overflows two_billion two_billion
    then none
    else some (within_buffer two_billion two_billion))
fits_lem_example = fits_lem two_billion two_billion two_billion-IsInt two_billion-IsInt

fits_wrapping-within_buffer_example :
    fits_wrapping two_billion two_billion ≡ some (within_buffer two_billion two_billion)
fits_wrapping-within_buffer_example =
    fits_wrapping-within_buffer two_billion two_billion two_billion-IsInt two_billion-IsInt

fits_small : fits (pos 0) (pos 16) ≡ some true
unfolding fits ◌+ℤ◌
fits_small = refl

builds_refine_example :
    (fits_wrapping (pos 0) (pos 16) ≡ some true)
    × (fits_optimised (pos 0) (pos 16) ≡ some true)
    × (Fixed.fits (pos 0) (pos 16) ≡ some true)
builds_refine_example =
    builds_refine (pos 0) (pos 16) (record { above = omega arith; below = omega arith })
      (record { above = omega arith; below = omega arith }) true fits_small
