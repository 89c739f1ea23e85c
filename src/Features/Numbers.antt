-- ===== src/Features/Numbers.antt =====
-- Python's arithmetic on floats, as the statistics of features/ use it. Nothing is supposed of it: no
-- theorem here is about rounding. `int n` is a whole number and `tenths n` a literal of the source;
-- a time is a whole number of ticks.
use sih.Prelude.{Bool, ◌/◌, ◌*◌, ◌-◌, ◌+◌, ℕ, ltb}

pub record Numbers : Type 1 where
  pub F : Type 0
  pub int : ℕ → F
  pub tenths : ℕ → F
  pub plus : F → F → F
  pub minus : F → F → F
  pub times : F → F → F
  pub over : F → F → F
  pub negated : F → F
  pub sqrt : F → F
  pub log2 : F → F
  pub lt : F → F → Bool

-- Whole numbers, with a quotient rounded down: they compute.
abbrev pub whole : Numbers
whole = record {
  F = ℕ;
  int = λ n. n;
  tenths = λ n. n / 10;
  plus = λ a b. a + b;
  minus = λ a b. a - b;
  times = λ a b. a * b;
  over = λ a b. a / b;
  negated = λ a. a;
  sqrt = λ a. a;
  log2 = λ a. a;
  lt = ltb;
}
