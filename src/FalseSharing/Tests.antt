-- ===== src/FalseSharing/Tests.antt =====
-- Runs of case 05, and its theorems at concrete inputs.
use systems_postmortems.Prelude.{
  ℕ, ◌+◌, ◌*◌, ◌%◌, ◌≡◌, ◌≤◌, ◌<◌, ◌↔◌, ◌⊎◌, refl, true, ◌&&◌, none, List, [], ◌∷◌, ltb, arith,
}
use systems_postmortems.Prelude.Int.{pos}
use systems_postmortems.Prelude.Lists.{length}
use systems_postmortems.Threads.{System, main, worker, Reach, start, later, step, returned}
use systems_postmortems.Threads.Table.{store}
use systems_postmortems.FalseSharing.Run
use systems_postmortems.FalseSharing.Run.{Counters, program, reset, Doubles, throughput}
use systems_postmortems.FalseSharing.Broken.{counter_size}
use systems_postmortems.FalseSharing.Broken
use systems_postmortems.FalseSharing.Fixed.{cache_line}
use systems_postmortems.FalseSharing.Fixed
use systems_postmortems.FalseSharing.Lines.{line, adjacent_lines}
use systems_postmortems.FalseSharing.Coherence.{
  misses, IsRun, ends, turn, IsAlternating, swaps, alone, padded_misses, adjacent_misses,
}
use systems_postmortems.FalseSharing.Memory.{Memory}
use systems_postmortems.FalseSharing.Exact.{IsExact, program-IsExact}
use systems_postmortems.FalseSharing.Same.{SameRun, same_runs}
use systems_postmortems.FalseSharing.Verdict.{main_verdicts}

-- The counters before a run: all 7.
abbrev sevens : Counters
sevens i = 7

-- Two threads of one iteration each, the second one first.
abbrev ended : System Counters ℕ
ended = record {
  shared = store (store (reset 4 0 sevens) 1 1) 0 1;
  spawned = 2;
  joined = 2;
  pcs = store (store (λ _. 0) 1 1) 0 1;
}

ended-Reach : Reach (program 2 1) (reset 4 0 sevens) 6 ended
unfolding program Run.worker reset step
ended-Reach =
    later
      (later
        (later (later (later (later start main refl) main refl) (worker 1) refl) (worker 0) refl)
        main refl)
      main refl

ended-returned : returned (program 2 1) ended ≡ true
unfolding program
ended-returned = refl

adjacent_lines_example :
    (line (Broken.address 184 2 + 7) ≡ line (Broken.address 184 2))
    × ((line (Broken.address 184 0) ≡ line (Broken.address 184 3)) ↔ (184 % cache_line ≤ 32))
    × ((k : ℕ) × (k < 3) × (line (Broken.address 184 k) ≡ line (Broken.address 184 (k + 1))))
adjacent_lines_example = adjacent_lines 184 2 7 refl (omega arith)

abbrev zigzag : List ℕ
zigzag = 0 ∷ 1 ∷ 0 ∷ 3 ∷ 0 ∷ 1 ∷ []

zigzag-IsRun : IsRun 4 zigzag
zigzag-IsRun = turn 0 (omega arith) (
    turn 1 (omega arith) (
      turn 0 (omega arith)
        (turn 3 (omega arith) (turn 0 (omega arith) (turn 1 (omega arith) ends)))))

padded_misses_example : misses (λ i. line (Fixed.address 128 i)) zigzag (λ _. none) ≤ 4
padded_misses_example = padded_misses 128 4 zigzag refl zigzag-IsRun

zigzag-IsAlternating : IsAlternating 4 zigzag
zigzag-IsAlternating = swaps 0 1 (omega arith) (omega arith) (
    swaps 1 0 (omega arith) (omega arith) (
      swaps 0 3 (omega arith) (omega arith) (
        swaps 3 0 (omega arith) (omega arith)
          (swaps 0 1 (omega arith) (omega arith) (alone 1 (omega arith))))))

adjacent_misses_example :
    misses (λ i. line (Broken.address 128 i)) zigzag (λ _. none) ≡ length zigzag
adjacent_misses_example = adjacent_misses 128 zigzag refl (omega arith) zigzag-IsAlternating

-- Small numbers in place of doubles.
abbrev whole : Doubles
whole = record {
  Double = ℕ;
  of_int = λ a. 2;
  over = λ a b. a;
  times = λ a b. a * b;
  less = λ a b. ltb a b;
}

main_verdicts_example :
    let m = Broken.main whole 184 (pos 300_000) (pos 900_000) in
    let n = Fixed.main whole 128 (pos 300_000) (pos 900_000) in
    (m.one ≡ n.one)
    × (m.four ≡ n.four)
    × (m.status ≡ 0)
    × (n.status ≡ 0)
    × ((m.scaled ≡ n.scaled) ↔ ((ltb m.four (m.one * 2) ≡ true) ⊎ (ltb (m.one * 2) m.four ≡ true)))
    × ((n.scaled && m.scaled) ≡ n.scaled)
main_verdicts_example =
    main_verdicts whole 184 128 (pos 300_000) (pos 900_000) (λ a b h. ground arith)

-- Memory before the program starts: all 7.
abbrev words : Memory
words a = 7

same_runs_example :
    ((s : System Memory ℕ)
      → Reach (Broken.program 184 2 1) (Broken.reset 184 words) 6 s
      → (t : System Memory ℕ) × Reach (Fixed.program 128 2 1) (Fixed.reset 128 words) 6 t
        × SameRun (Broken.address 184) (Fixed.address 128) s t)
    × ((t : System Memory ℕ)
        → Reach (Fixed.program 128 2 1) (Fixed.reset 128 words) 6 t
        → (s : System Memory ℕ) × Reach (Broken.program 184 2 1) (Broken.reset 184 words) 6 s
          × SameRun (Broken.address 184) (Fixed.address 128) s t)
same_runs_example = same_runs 184 128 2 1 words words (omega arith)

program-IsExact_example :
    ((k : ℕ) (s : System Memory ℕ)
      → Reach (Broken.program 184 2 1) (Broken.reset 184 words) k s
      → returned (Broken.program 184 2 1) s ≡ true
      → IsExact (Broken.address 184) 2 1 words s.shared)
    × ((k : ℕ) (s : System Memory ℕ)
        → Reach (Fixed.program 184 2 1) (Fixed.reset 184 words) k s
        → returned (Fixed.program 184 2 1) s ≡ true
        → IsExact (Fixed.address 184) 2 1 words s.shared)
program-IsExact_example = program-IsExact 184 2 1 words (omega arith) (omega arith)
