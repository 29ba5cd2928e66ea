-- ===== src/Dangling/Fixed.antt =====
-- `main` of cases/03-dangling-reference/fixed.cpp: an index kept before the loop, read after it.
use systems_postmortems.Prelude.{ℕ, Option, some, ◌>>=◌}
use systems_postmortems.Dangling.Vector.{empty, push_back, at}
use systems_postmortems.Dangling.Sensors.{Values, Sensor, temperature, add_auxiliary, aux_count}

abbrev pub first_index : ℕ
first_index = 0

unfoldable pub main : (c : Values) → (ℕ → ℕ) → Option (Sensor c × ℕ)
main c grow =
    let v = push_back grow (temperature c) (empty (Sensor c)) in
    let w = add_auxiliary c grow aux_count 0 v in do s ← at first_index w; some (s, 0)
