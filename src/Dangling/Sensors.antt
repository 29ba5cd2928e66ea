-- ===== src/Dangling/Sensors.antt =====
-- The sensors of case 03 and the loop that adds the auxiliary ones, the same text in both programs.
use Prim.Native.String
use Prim.Native.String.{String}
use systems_postmortems.Prelude.{ℕ, zero, suc, ◌+◌}
use systems_postmortems.Dangling.Vector.{State, push_back}

-- `double`, its conversion from int and the literal 21.5; std::to_string.
pub record Values : Type 1 where
  pub Double : Type 0
  pub of_int : ℕ → Double
  pub twenty_one_and_a_half : Double
  pub to_string : ℕ → String

abbrev pub aux_count : ℕ
aux_count = 64

module _ (c : Values) where
  open c use {Double, of_int, twenty_one_and_a_half, to_string}

  pub record Sensor : Type 0 where
    pub name : String
    pub reading : Double

  abbrev pub temperature : Sensor
  temperature = record { name = "temperature"; reading = twenty_one_and_a_half }

  abbrev pub auxiliary : ℕ → Sensor
  auxiliary i = record { name = String.◌++◌ "aux" (to_string i); reading = of_int i }

  -- The loop from `i`, with `n` rounds to go. The growth of the vector is a parameter.
  unfoldable pub add_auxiliary : (ℕ → ℕ) → ℕ → ℕ → State Sensor → State Sensor
  add_auxiliary grow zero i v = v
  add_auxiliary grow (suc n) i v = add_auxiliary grow n (i + 1) (push_back grow (auxiliary i) v)
