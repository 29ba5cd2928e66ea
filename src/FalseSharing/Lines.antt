-- ===== src/FalseSharing/Lines.antt =====
-- Which counters of case 05 lie in the same cache line.
use systems_postmortems.Prelude.{ℕ, ◌+◌, ◌/◌, ◌%◌, ◌≤◌, ◌<◌, ◌≡◌, ◌↔◌, arith, dec_lt}
use systems_postmortems.FalseSharing.Broken.{counter_size}
use systems_postmortems.FalseSharing.Broken
use systems_postmortems.FalseSharing.Fixed.{cache_line}
use systems_postmortems.FalseSharing.Fixed

-- The number of the line with this byte.
abbrev pub line : ℕ → ℕ
line byte = byte / cache_line

-- The padded counters, aligned to a line: every byte of counter `i` is in the `i`-th line from the
-- base, so two counters share a line only if they are the same one.
pub padded_lines :
    (base i j b : ℕ)
    → base % cache_line ≡ 0
    → b < counter_size
    → (line (Fixed.address base i + b) ≡ line base + i)
      × ((line (Fixed.address base i) ≡ line (Fixed.address base j)) ↔ (i ≡ j))
unfolding Fixed.address
padded_lines base i j b h lt = (omega arith, (λ e. omega arith, λ e. omega arith))

-- The adjacent counters, aligned to 8: each lies in one line, all four lie in the same line exactly
-- if the base is at most 32 bytes into one, and always two neighbours do.
pub adjacent_lines :
    (base i b : ℕ)
    → base % counter_size ≡ 0
    → b < counter_size
    → (line (Broken.address base i + b) ≡ line (Broken.address base i))
      × ((line (Broken.address base 0) ≡ line (Broken.address base 3)) ↔ (base % cache_line ≤ 32))
      × ((k : ℕ) × (k < 3) × (line (Broken.address base k) ≡ line (Broken.address base (k + 1))))
unfolding Broken.address
adjacent_lines base i b h lt = (
  omega arith,
  (λ e. omega arith, λ e. omega arith),
  elim (dec_lt (base % cache_line) 56) [
    | yes early ↦ (0, omega arith, omega arith)
    | no late ↦ (1, omega arith, omega arith)
  ],
)
