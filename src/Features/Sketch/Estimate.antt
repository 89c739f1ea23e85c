-- ===== src/Features/Sketch/Estimate.antt =====
-- What a sketch holds after a list of calls of `add`, and what `get` makes of it. The calls are
-- listed from the last to the first.
use sih.Prelude.{
  arith, ◌∷◌, [], List, some, none, Option, ap₂, ap, refl, ◌≡◌, ◌<◌, ◌%◌, ◌+◌, suc, zero, ℕ,
  replicate,
}
use sih.Features.Sketch.Cells.{set-row, get_elem?-row, cells_zero, bump, cells}
use sih.Features.Sketch.{hash, new_sketch, add_rows, CountMinSketch, add, add_at}

module _ {I : Type 0} (digest : ℕ → I → ℕ) (w : ℕ) where
  -- The column of an item in a row.
  abbrev pub column : ℕ → I → ℕ
  column seed item = digest seed item % suc w

  pub column_bound : (seed : ℕ) (item : I) → column seed item < suc w
  column_bound seed item = omega arith

  -- The counts of all calls whose item falls in a column.
  unfoldable pub collisions : List (I × ℕ) → ℕ → ℕ → ℕ
  collisions [] seed = λ j. 0
  collisions ((item, count) ∷ calls) seed = bump (column seed item) count (collisions calls seed)

  unfoldable pub table_of : List (I × ℕ) → ℕ → ℕ → List (List ℕ)
  table_of calls seed zero = []
  table_of calls seed (suc n) =
      cells 0 (suc w) (collisions calls seed) ∷ table_of calls (seed + 1) n

  add_at-cells :
      (f : ℕ → ℕ) (i count : ℕ)
      → i < suc w
      → add_at (cells 0 (suc w) f) i count ≡ some (cells 0 (suc w) (bump i count f))
  unfolding add_at
  add_at-cells f i count h =
      rw (get_elem?-row (suc w) i f h, add_at) (ap some (set-row (suc w) i count f h))

  add_rows-table_of :
      (item : I) (count : ℕ) (calls : List (I × ℕ)) (n seed : ℕ)
      → add_rows digest (suc w) item count n seed (table_of calls seed n)
        ≡ some (table_of ((item, count) ∷ calls) seed n)
  unfolding table_of add_rows hash collisions
  add_rows-table_of item count calls zero seed = refl
  add_rows-table_of item count calls (suc n) seed = rw (
    add_at-cells (collisions calls seed) (column seed item) count (column_bound seed item),
    add_rows-table_of item count calls n (seed + 1),
  )

  new_table : (n seed : ℕ) → replicate n (replicate (suc w) 0) ≡ table_of [] seed n
  unfolding table_of collisions
  new_table zero seed = refl
  new_table (suc n) seed = ap₂ ◌∷◌ (cells_zero 0 (suc w)) (new_table n (seed + 1))

  -- The sum of the counts of all calls, and of those with one item.
  unfoldable pub total : List (I × ℕ) → ℕ
  total [] = 0
  total ((item, count) ∷ calls) = total calls + count

  -- The sketch after the calls; the last comes first in the list.
  unfoldable pub run : ℕ → List (I × ℕ) → Option CountMinSketch
  unfolding add
  run depth [] = some (new_sketch (suc w) depth)
  run depth ((item, count) ∷ calls) = elim (run depth calls) [
    | none ↦ none
    | some s ↦ add digest item count s
  ]

  abbrev pub sketch_of : ℕ → List (I × ℕ) → CountMinSketch
  sketch_of depth calls = record {
    width = suc w;
    depth = depth;
    table = table_of calls 0 depth;
    total_count = total calls;
  }

  pub run-sketch_of :
      (depth : ℕ) (calls : List (I × ℕ)) → run depth calls ≡ some (sketch_of depth calls)
  unfolding run add table_of total
  run-sketch_of depth [] = rw (new_table depth 0)
  run-sketch_of depth ((item, count) ∷ calls) =
      rw (run-sketch_of depth calls, add_rows-table_of item count calls depth 0)
