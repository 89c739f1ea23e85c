-- ===== src/Features/Online.antt =====
-- Welford, EWMA and the entropy of a sketch, of features/online_stats.py.
use sih.Features.Numbers.{Numbers}
use sih.Features.Sketch.{CountMinSketch}
use sih.Prelude.{◌∷◌, [], List, some, none, Option, ◌-◌, ◌+◌, ℕ, if◌then◌else◌, nat_beq, ltb}

module _ (nu : Numbers) where
  open nu use {F, int, tenths, plus, minus, times, over, sqrt, log2}

  pub record Welford : Type 0 where
    pub count : ℕ
    pub mean : F
    pub m2 : F

  abbrev pub new_welford : Welford
  new_welford = record { count = 0; mean = int 0; m2 = int 0 }

  unfoldable pub update_welford : F → Welford → Welford
  update_welford value w =
      let count = w.count + 1 in
      let delta = minus value w.mean in
      let mean = plus w.mean (over delta (int count)) in
      let delta2 = minus value mean in
      record { count = count; mean = mean; m2 = plus w.m2 (times delta delta2) }

  unfoldable pub get_variance : Welford → F
  get_variance w = if ltb w.count 2 then int 0 else over w.m2 (int (w.count - 1))

  unfoldable pub get_stddev : Welford → F
  unfolding get_variance
  get_stddev w = sqrt (get_variance w)

  pub record Ewma : Type 0 where
    pub alpha : F
    pub value : Option F

  abbrev pub new_ewma : F → Ewma
  new_ewma alpha = record { alpha = alpha; value = none }

  -- The new value of an EWMA.
  abbrev pub averaged : F → F → Option F → F
  averaged alpha new_value none = new_value
  averaged alpha new_value (some value) =
      plus (times alpha new_value) (times (minus (int 1) alpha) value)

  unfoldable pub update_ewma : F → Ewma → Ewma
  update_ewma new_value e = record e { value = some (averaged e.alpha new_value e.value) }

  abbrev pub or_default : Option F → F
  or_default none = int 0
  or_default (some value) = value

  unfoldable pub get_ewma : Ewma → F
  get_ewma e = or_default e.value

  -- The loop over the counts of the first row.
  unfoldable pub entropy_of : (total : ℕ) → (entropy : F) → List ℕ → F
  entropy_of total entropy [] = entropy
  entropy_of total entropy (count ∷ row) =
      let p = over (int count) (int total) in
      entropy_of total (if ltb 0 count then minus entropy (times p (log2 p)) else entropy) row

  abbrev row_zero : List (List ℕ) → Option (List ℕ)
  row_zero [] = none
  row_zero (row ∷ rows) = some row

  -- `none` is an IndexError: a sketch without rows that has counted something
  unfoldable pub approximate_entropy : CountMinSketch → Option F
  unfolding entropy_of
  approximate_entropy s =
      if nat_beq s.total_count 0 then some (int 0) else (elim (row_zero s.table) [
        | none ↦ none
        | some row ↦ some (entropy_of s.total_count (int 0) row)
      ])
