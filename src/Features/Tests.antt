-- ===== src/Features/Tests.antt =====
-- The sketch at concrete calls.
-- A digest under which "a" and "ccc" share their column in the first row only.
use sih.Prelude.{arith, ◌∷◌, [], List, some, none, Option, refl, ◌≡◌, ◌/◌, ◌*◌, ◌+◌, ℕ}
use sih.Features.Sketch.Bounds.{run-Estimated, Estimated}
use sih.Features.Sketch.Estimate.{run}
use sih.Features.Sketch.{hash, add_at, add, add_rows, get, CountMinSketch, get_rows}
use sih.Prelude.Eq.{nat_eq}

abbrev digest : ℕ → ℕ → ℕ
digest seed item = item + seed * (item / 4)

abbrev calls : List (ℕ × ℕ)
calls = (1, 5) ∷ (5, 2) ∷ (1, 1) ∷ (3, 9) ∷ []

program : Unit {0}
unfolding get_rows get add_rows add add_at hash run
program = tt

answer_after : ℕ → Option CountMinSketch → Option (Option ℕ)
answer_after item none = none
answer_after item (some s) = get digest item s

-- The first row has 8 in the column of item 1, the second 6.
answer : answer_after 1 (run digest 3 2 calls) ≡ some (some 6)
unfolding program answer_after
answer = refl

run-Estimated_example : Estimated digest 3 2 calls 1
run-Estimated_example = run-Estimated digest 3 2 calls 1 (omega arith)
