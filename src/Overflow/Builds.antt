-- ===== src/Overflow/Builds.antt =====
-- What the builds of the `fits` of cases/04-overflow-removes-check/broken.cpp answer.
use systems_postmortems.Prelude.{
  ◌≡◌, ◌≢◌, ◌↔◌, refl, Bool, true, ◌||◌, none, some, if◌then◌else◌, arith,
}
use systems_postmortems.Prelude.Int.{ℤ, IsInt, ◌+ℤ◌}
use systems_postmortems.Overflow.Semantics.{within_buffer, overflows}
use systems_postmortems.Overflow.Broken.{fits, fits_wrapping, fits_optimised, main}
use systems_postmortems.Overflow.Fixed
use systems_postmortems.Overflow.Fixed.{fits-within_buffer}

-- For two `int` arguments the source is undefined exactly where the sum overflows, and answers the
-- specification everywhere else.
pub fits_lem :
    (offset length : ℤ)
    → IsInt offset
    → IsInt length
    → fits offset length
      ≡ (if overflows offset length then none else some (within_buffer offset length))
unfolding fits overflows within_buffer ◌+ℤ◌
fits_lem offset length ho hl = ground arith

-- For two `int` arguments the build that wraps answers the specification, also where the source is
-- undefined.
pub fits_wrapping-within_buffer :
    (offset length : ℤ)
    → IsInt offset
    → IsInt length
    → fits_wrapping offset length ≡ some (within_buffer offset length)
unfolding fits_wrapping within_buffer ◌+ℤ◌
fits_wrapping-within_buffer offset length ho hl = ground arith

-- For two `int` arguments the build without the guard answers yes exactly when the write is within
-- the buffer or the sum overflows: it accepts every overflow.
pub fits_optimised_lem :
    (offset length : ℤ)
    → IsInt offset
    → IsInt length
    → fits_optimised offset length ≡ some (within_buffer offset length || overflows offset length)
unfolding fits_optimised within_buffer overflows ◌+ℤ◌
fits_optimised_lem offset length ho hl = ground arith

-- Wherever the broken source is defined at two `int` arguments, the build that wraps, the build
-- without the guard and the fixed check all give its answer.
pub builds_refine :
    (offset length : ℤ)
    → IsInt offset
    → IsInt length
    → (answer : Bool) → fits offset length ≡ some answer
    → (fits_wrapping offset length ≡ some answer)
      × (fits_optimised offset length ≡ some answer)
      × (Fixed.fits offset length ≡ some answer)
builds_refine o l ho hl answer e = (
  ground (arith, fits_lem o l ho hl, fits_wrapping-within_buffer o l ho hl),
  ground (arith, fits_lem o l ho hl, fits_optimised_lem o l ho hl),
  ground (arith, fits_lem o l ho hl, fits-within_buffer o l ho hl),
)

within_buffer-overflows : (o l : ℤ) → overflows o l ≡ true → within_buffer o l ≢ true
unfolding within_buffer overflows ◌+ℤ◌
within_buffer-overflows o l h = ground arith

-- For two `int` arguments the build that wraps and the build without the guard give the same answer
-- exactly when the source is defined there.
builds_agree_iff :
    (offset length : ℤ)
    → IsInt offset
    → IsInt length
    → (fits_wrapping offset length ≡ fits_optimised offset length) ↔ (fits offset length ≢ none)
builds_agree_iff o l ho hl = (
  λ e u. ground (arith, laws.0, laws.1, laws.2, within_buffer-overflows o l),
  λ u. ground (arith, laws.0, laws.1, laws.2),
)
  where
    laws :
        (fits o l ≡ (if overflows o l then none else some (within_buffer o l)))
        × (fits_wrapping o l ≡ some (within_buffer o l))
        × (fits_optimised o l ≡ some (within_buffer o l || overflows o l))
    laws = (fits_lem o l ho hl, fits_wrapping-within_buffer o l ho hl, fits_optimised_lem o l ho hl)

-- For any two `int` values of the volatiles: the build that wraps prints and returns what is right
-- for the write, and the build without the guard approves, warns and returns 1 exactly when the
-- write is within the buffer or the sum overflows.
pub main_builds :
    (offset length : ℤ)
    → IsInt offset
    → IsInt length
    → (main fits_wrapping offset length ≡ (
        let w = within_buffer offset length in
        some (record { small = true; huge = w; approved = w; status = if w then 1 else 0 })))
      × (main fits_optimised offset length ≡ (
          let w = within_buffer offset length || overflows offset length in
          some (record { small = true; huge = w; approved = w; status = if w then 1 else 0 })))
main_builds o l ho hl = (
  unfold main in rw (fits_wrapping-within_buffer o l ho hl) (unfold fits_wrapping in refl),
  unfold main in rw (fits_optimised_lem o l ho hl) (unfold fits_optimised in refl),
)
