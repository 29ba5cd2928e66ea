-- ===== src/Dangling/Outcome.antt =====
-- What the two programs of case 03 print, for any growth of the vector.
use systems_postmortems.Prelude.{
  ℕ, zero, suc, ◌+◌, ◌<◌, ◌≡◌, refl, ap, ◌∙◌, leb, if◌then◌else◌, none, some, List, [], ◌∷◌, ◌++◌,
  arith,
}
use systems_postmortems.Prelude.Lists.{length, get_elem?}
use systems_postmortems.Dangling.Vector.{
  State, empty, front, push_back, push_all, elements, listed, at, dereference, front,
}
use systems_postmortems.Dangling.Vector.Growth.{IsVector, push_back-IsVector}
use systems_postmortems.Dangling.Vector.Held.{elements-push_all, at-push_all, dereference-push_all}
use systems_postmortems.Dangling.Sensors.{
  Values, Sensor, temperature, auxiliary, add_auxiliary, aux_count,
}
use systems_postmortems.Dangling.Broken
use systems_postmortems.Dangling.Fixed

module _ (c : Values) where
  -- The sensors "aux<i>" to "aux<i + n - 1>".
  unfoldable pub auxiliaries : ℕ → ℕ → List (Sensor c)
  auxiliaries zero i = []
  auxiliaries (suc n) i = auxiliary c i ∷ auxiliaries n (i + 1)

  length-auxiliaries : (n i : ℕ) → length (auxiliaries n i) ≡ n
  unfolding auxiliaries length
  length-auxiliaries zero i = refl
  length-auxiliaries (suc n) i = omega (arith, length-auxiliaries n (i + 1))

  module _ (grow : ℕ → ℕ) (grows : (n : ℕ) → n < grow n) where
    add_auxiliary-push_all :
        (n i : ℕ) (v : State (Sensor c))
        → add_auxiliary c grow n i v ≡ push_all grow (auxiliaries n i) v
    unfolding add_auxiliary auxiliaries push_all
    add_auxiliary-push_all zero i v = refl
    add_auxiliary-push_all (suc n) i v =
        add_auxiliary-push_all n (i + 1) (push_back grow (auxiliary c i) v)

    abbrev single : State (Sensor c)
    single = push_back grow (temperature c) (empty (Sensor c))

    empty-IsVector : IsVector (empty (Sensor c))
    unfolding length listed
    empty-IsVector = record { fresh = λ b h. refl; older = omega arith; fits = omega arith }

    single-IsVector :
        IsVector single
        × (elements single ≡ temperature c ∷ [])
        × (single.capacity ≡ grow 0)
        × (at 0 single ≡ some (temperature c))
    unfolding push_back length listed at get_elem?
    single-IsVector = (
      (push_back-IsVector grow grows (temperature c) (empty (Sensor c)) empty-IsVector).0,
      refl,
      refl,
      refl,
    )

    -- Whatever the growth, after the loop the vector holds the temperature and the 64 auxiliary
    -- sensors in order, and fixed.cpp prints the temperature and returns 0.
    pub fixed_sensors :
        (elements (add_auxiliary c grow aux_count 0 single) ≡ temperature c ∷ auxiliaries 64 0)
        × (Fixed.main c grow ≡ some (temperature c, 0))
    unfolding Fixed.main length
    fixed_sensors =
        let (w, e, room, read) = single-IsVector in
        let looped = add_auxiliary-push_all aux_count 0 single in
        let pushed = elements-push_all grow grows (auxiliaries 64 0) single w in
        (
          ap (λ v. elements v) looped ∙ pushed.1 ∙ ap (λ xs. xs ++ auxiliaries 64 0) e,
          rw
              (
                looped,
                at-push_all grow grows 0 (auxiliaries 64 0) single w (rw e (omega arith)),
                read,
              )
              refl,
        )

    single-held :
        dereference (front single) (add_auxiliary c grow aux_count 0 single)
        ≡ (if leb 65 (grow 0) then some (temperature c) else none)
    unfolding length
    single-held =
        let (w, e, room, read) = single-IsVector in
        let looped = add_auxiliary-push_all aux_count 0 single in
        let held =
          dereference-push_all grow grows 0 (auxiliaries 64 0) single w (rw e (omega arith)) in
        ground (arith, looped, held, e, room, read, length-auxiliaries 64 0)

    -- broken.cpp prints the temperature and returns 0 if the capacity of the first allocation is at
    -- least 65, and otherwise reads freed storage.
    pub broken_main_lem :
        Broken.main c grow ≡ (if leb 65 (grow 0) then some (temperature c, 0) else none)
    unfolding Broken.main
    broken_main_lem = ground (arith, single-held)
