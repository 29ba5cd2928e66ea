-- ===== src/Dangling/Tests.antt =====
-- Runs of case 03, and its theorems at concrete inputs.
use systems_postmortems.Prelude.{ℕ, ◌+◌, ◌*◌, ◌≡◌, refl, leb, if◌then◌else◌, none, some, ◌∷◌, arith}
use systems_postmortems.Prelude.Lists.{length, get_elem?}
use systems_postmortems.Dangling.Vector.{empty, push_back, elements, dereference}
use systems_postmortems.Dangling.Sensors.{Values, Sensor, temperature, add_auxiliary, aux_count}
use systems_postmortems.Dangling.Outcome.{auxiliaries, fixed_sensors, broken_main_lem}
use systems_postmortems.Dangling.Broken
use systems_postmortems.Dangling.Fixed

-- Tenths in place of doubles, and one name for all numbers.
abbrev tenths : Values
tenths = record {
  Double = ℕ;
  of_int = λ i. 10 * i;
  twenty_one_and_a_half = 215;
  to_string = λ i. "0";
}

-- From 0 to 1, and then to twice the size.
abbrev doubling : ℕ → ℕ
doubling n = n + n + 1

abbrev roomy : ℕ → ℕ
roomy n = n + 65

broken_doubling : Broken.main tenths doubling ≡ none
unfolding Broken.main add_auxiliary push_back dereference length get_elem?
broken_doubling = refl

broken_roomy : Broken.main tenths roomy ≡ some (temperature tenths, 0)
unfolding Broken.main add_auxiliary push_back dereference length get_elem?
broken_roomy = refl

broken_main_lem_example :
    Broken.main tenths doubling
    ≡ (if leb 65 (doubling 0) then some (temperature tenths, 0) else none)
broken_main_lem_example = broken_main_lem tenths doubling (λ n. omega arith)

fixed_sensors_example :
    (elements (
        add_auxiliary tenths doubling aux_count 0
          (push_back doubling (temperature tenths) (empty (Sensor tenths))))
      ≡ temperature tenths ∷ auxiliaries tenths 64 0)
    × (Fixed.main tenths doubling ≡ some (temperature tenths, 0))
fixed_sensors_example = fixed_sensors tenths doubling (λ n. omega arith)
