-- ===== src/Dangling/Broken.antt =====
-- `main` of cases/03-dangling-reference/broken.cpp: a reference taken before the loop, read after it.
use systems_postmortems.Prelude.{ℕ, Option, some, ◌>>=◌}
use systems_postmortems.Dangling.Vector.{empty, push_back, front, dereference}
use systems_postmortems.Dangling.Sensors.{Values, Sensor, temperature, add_auxiliary, aux_count}

-- The sensor that is printed and the exit status, `none` where the read is undefined.
unfoldable pub main : (c : Values) → (ℕ → ℕ) → Option (Sensor c × ℕ)
main c grow =
    let v = push_back grow (temperature c) (empty (Sensor c)) in
    let first = front v in
    let w = add_auxiliary c grow aux_count 0 v in do s ← dereference first w; some (s, 0)
