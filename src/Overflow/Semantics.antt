-- ===== src/Overflow/Semantics.antt =====
-- What the two versions of `fits` share: the buffer size, `int` arithmetic, and the question that a
-- bounds check has to answer.
use systems_postmortems.Prelude.{
  ℕ, ◌+◌, ◌-◌, ◌%◌, ◌^◌, Bool, ◌&&◌, Option, none, some, ltb, if◌then◌else◌,
}
use systems_postmortems.Prelude.Int.{ℤ, pos, negsuc, ◌+ℤ◌, ◌-ℤ◌, ltb_ℤ, leb_ℤ, int_min, int_max}

abbrev pub buffer_size : ℤ
buffer_size = pos 1024

abbrev pub in_int : ℤ → Bool
in_int a = leb_ℤ int_min a && leb_ℤ a int_max

-- `a + b` and `a - b` on `int`: undefined unless the exact result is an `int`.
unfoldable pub add_int : ℤ → ℤ → Option ℤ
add_int a b = if in_int (a +ℤ b) then some (a +ℤ b) else none

unfoldable pub sub_int : ℤ → ℤ → Option ℤ
sub_int a b = if in_int (a -ℤ b) then some (a -ℤ b) else none

-- The bit pattern of an `int`, and the `int` of a bit pattern.
abbrev pub bits : ℤ → ℕ
bits (pos n) = n % 2 ^ 32
bits (negsuc n) = (2 ^ 32 - 1) - n % 2 ^ 32

abbrev pub signed : ℕ → ℤ
signed w = if ltb w (2 ^ 31) then pos w else negsuc (2 ^ 32 - w - 1)

-- The machine's addition, which wraps.
unfoldable pub add_wrap : ℤ → ℤ → ℤ
add_wrap a b = signed ((bits a + bits b) % 2 ^ 32)

-- The specification, over exact integers.
unfoldable pub within_buffer : ℤ → ℤ → Bool
within_buffer offset length =
    leb_ℤ (pos 0) offset && (leb_ℤ (pos 0) length && leb_ℤ (offset +ℤ length) buffer_size)

-- Where the addition of two sizes leaves the range of `int`.
unfoldable pub overflows : ℤ → ℤ → Bool
overflows offset length =
    leb_ℤ (pos 0) offset && (leb_ℤ (pos 0) length && ltb_ℤ int_max (offset +ℤ length))
