-- ===== src/Features/Sketch.antt =====
-- CountMinSketch of features/online_stats.py: a table of counts. The digest is a parameter: `_hash`
-- takes md5 of the seed and the item.
pub mod Estimate
pub mod Cells
pub mod Bounds
use sih.Prelude.{
  ◌∷◌, [], List, some, none, Option, ◌%◌, ◌+◌, suc, zero, ℕ, replicate, set, get_elem?,
  if◌then◌else◌, ltb,
}

pub record CountMinSketch : Type 0 where
  pub width : ℕ
  pub depth : ℕ
  pub table : List (List ℕ)
  pub total_count : ℕ

abbrev pub new_sketch : ℕ → ℕ → CountMinSketch
new_sketch width depth = record {
  width = width;
  depth = depth;
  table = replicate depth (replicate width 0);
  total_count = 0;
}

-- min(min_count, x), where `none` is the infinity that the loop starts with
abbrev pub min_count : Option ℕ → ℕ → ℕ
min_count none x = x
min_count (some least) x = if ltb x least then x else least

-- `row[idx] += count`; `none` is an IndexError
unfoldable pub add_at : List ℕ → ℕ → ℕ → Option (List ℕ)
add_at row idx count = elim (get_elem? row idx) [
  | none ↦ none
  | some old ↦ some (set row idx (old + count))
]

abbrev and_then : Option (List ℕ) → Option (List (List ℕ)) → Option (List (List ℕ))
and_then none later = none
and_then (some row) none = none
and_then (some row) (some rows) = some (row ∷ rows)

module _ {I : Type 0} (digest : ℕ → I → ℕ) where
  -- `int(m.hexdigest(), 16) % self.width`; `none` is a ZeroDivisionError
  unfoldable pub hash : ℕ → I → ℕ → Option ℕ
  hash zero item seed = none
  hash (suc w) item seed = some (digest seed item % suc w)

  abbrev add_hashed : List ℕ → ℕ → Option ℕ → Option (List ℕ)
  unfolding add_at
  add_hashed row count none = none
  add_hashed row count (some idx) = add_at row idx count

  -- The loop of `add` from the round `seed` on, over the rows that are left.
  unfoldable pub add_rows : ℕ → I → ℕ → (rounds seed : ℕ) → List (List ℕ) → Option (List (List ℕ))
  unfolding hash add_at
  add_rows width item count zero seed rows = some rows
  add_rows width item count (suc n) seed [] = none
  add_rows width item count (suc n) seed (row ∷ rows) =
      and_then (add_hashed row count (hash width item seed))
        (add_rows width item count n (seed + 1) rows)

  unfoldable pub add : I → ℕ → CountMinSketch → Option CountMinSketch
  unfolding add_rows
  add item count s = elim (add_rows s.width item count s.depth 0 s.table) [
    | none ↦ none
    | some rows ↦ some (record s { table = rows; total_count = s.total_count + count })
  ]

  abbrev pub read : List ℕ → Option ℕ → Option ℕ
  read row none = none
  read row (some idx) = get_elem? row idx

  -- The loop of `get`; the result is the infinity where there are no rounds, and `none` an exception.
  unfoldable pub get_rows : ℕ → I → (rounds seed : ℕ) → List (List ℕ) → Option ℕ → Option (Option ℕ)
  unfolding hash
  get_rows width item zero seed rows least = some least
  get_rows width item (suc n) seed [] least = none
  get_rows width item (suc n) seed (row ∷ rows) least = elim (read row (hash width item seed)) [
    | none ↦ none
    | some x ↦ get_rows width item n (seed + 1) rows (some (min_count least x))
  ]

  unfoldable pub get : I → CountMinSketch → Option (Option ℕ)
  unfolding get_rows
  get item s = get_rows s.width item s.depth 0 s.table none
