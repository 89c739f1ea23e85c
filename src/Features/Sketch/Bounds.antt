-- ===== src/Features/Sketch/Bounds.antt =====
-- The error of an estimate of the sketch.
use sih.Prelude.{
  arith, ◌∷◌, [], List, some, none, true, ap, refl, ◌≡◌, ◌<◌, ◌≤◌, ◌+◌, suc, zero, ℕ, nat_beq_iff,
  if◌then◌else◌, nat_beq,
}
use sih.Prelude.Eq.{Eq}
use sih.Features.Sketch.{read, min_count, CountMinSketch, get_rows, get, hash}
use sih.Features.Sketch.Estimate.{
  column_bound, column, run-sketch_of, run, table_of, sketch_of, collisions, total,
}
use sih.Features.Sketch.Cells.{get_elem?-row, cells}

module _ {I : Type 0} ⦃e : Eq I⦄ (digest : ℕ → I → ℕ) (w : ℕ) where
  -- The sum of the counts of the calls with one item.
  unfoldable pub count_of : I → List (I × ℕ) → ℕ
  count_of item [] = 0
  count_of item ((x, count) ∷ calls) =
      if e.beq x item then count_of item calls + count else count_of item calls

  same_column :
      (seed : ℕ) (x item : I)
      → e.beq x item ≡ true
      → nat_beq (column digest w seed x) (column digest w seed item) ≡ true
  same_column seed x item h =
      (nat_beq_iff _ _).1 (ap (column digest w seed) ((e.beq_iff x item).0 h))

  collisions_bounds :
      (item : I) (seed : ℕ) (calls : List (I × ℕ))
      → (count_of item calls ≤ collisions digest w calls seed (column digest w seed item))
        × (collisions digest w calls seed (column digest w seed item) ≤ total digest w calls)
  unfolding count_of collisions total
  collisions_bounds item seed [] = (omega arith, omega arith)
  collisions_bounds item seed ((x, count) ∷ calls) =
      ground (arith, collisions_bounds item seed calls, same_column seed x item)

  abbrev Between : I → List (I × ℕ) → ℕ → Type 0
  Between item calls m = (count_of item calls ≤ m) × (m ≤ total digest w calls)

  min_count-Between :
      (item : I) (calls : List (I × ℕ)) (a x : ℕ)
      → Between item calls a
      → Between item calls x
      → Between item calls (min_count (some a) x)
  min_count-Between item calls a x h g = ground arith

  read_cell :
      (item : I) (calls : List (I × ℕ)) (seed : ℕ)
      → read digest
          (cells 0 (suc w) (collisions digest w calls seed))
          (hash digest (suc w) item seed)
        ≡ some (collisions digest w calls seed (column digest w seed item))
  unfolding hash
  read_cell item calls seed =
      get_elem?-row (suc w) (column digest w seed item) (collisions digest w calls seed)
        (column_bound digest w seed item)

  get_rows-Between :
      (item : I) (calls : List (I × ℕ)) (n seed a : ℕ)
      → Between item calls a
      → (m : ℕ) × (get_rows digest (suc w) item n seed (table_of digest w calls seed n) (some a)
          ≡ some (some m))
        × Between item calls m
  unfolding get_rows table_of
  get_rows-Between item calls zero seed a h = (a, refl, h)
  get_rows-Between item calls (suc n) seed a h =
      rw (read_cell item calls seed, get_rows)
        (get_rows-Between item calls n (seed + 1) _
          (min_count-Between item calls a _ h (collisions_bounds item seed calls)))

  get_rows_first :
      (item : I) (calls : List (I × ℕ)) (n seed : ℕ)
      → (m : ℕ) × (get_rows digest
            (suc w)
            item
            (suc n)
            seed
            (table_of digest w calls seed (suc n))
            none
          ≡ some (some m))
        × Between item calls m
  unfolding get_rows table_of
  get_rows_first item calls n seed =
      rw (read_cell item calls seed, get_rows)
        (get_rows-Between item calls n (seed + 1) _ (collisions_bounds item seed calls))

  -- The sketch after some calls, and its estimate of an item.
  pub record Estimated (depth : ℕ) (calls : List (I × ℕ)) (item : I) : Type 0 where
    pub sketch : CountMinSketch
    pub runs : run digest w depth calls ≡ some sketch
    pub total_is : sketch.total_count ≡ total digest w calls
    pub estimate : ℕ
    pub answers : get digest item sketch ≡ some (some estimate)
    pub lower : count_of item calls ≤ estimate
    pub upper : estimate ≤ total digest w calls

  -- Whatever the digest, a sketch with columns and rows takes any list of calls of `add` with no
  -- exception and keeps the sum of their counts; `get` then answers any item with a number that is
  -- at least the sum of the counts of the calls with that item, and at most that of all calls.
  pub run-Estimated :
      (depth : ℕ) (calls : List (I × ℕ)) (item : I) → 0 < depth → Estimated depth calls item
  unfolding get
  run-Estimated zero calls item h = absurd (omega (arith, h))
  run-Estimated (suc n) calls item h =
      let found = get_rows_first item calls n 0 in
      record {
        sketch = sketch_of digest w (suc n) calls;
        runs = run-sketch_of digest w (suc n) calls;
        total_is = refl;
        estimate = found.0;
        answers = found.1;
        lower = found.2.0;
        upper = found.2.1;
      }
