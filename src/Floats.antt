-- ===== src/Floats.antt =====
-- Python's floats, as far as the detectors and the alerting layer use them: an ordered type with the
-- literals of the source, which are all whole numbers of hundredths. NaN is left out: the order is
-- total. `single` is the rounding to float32 that numpy makes.
use sih.Prelude.{arith, not, false, true, Bool, refl, ◌≡◌, ℕ, if◌then◌else◌, ltb}

pub record Floats : Type 1 where
  pub F : Type 0
  pub lt : F → F → Bool
  pub lit : ℕ → F
  pub single : F → F
  pub lt_asym : (a b : F) → lt a b ≡ true → lt b a ≡ false
  pub le_trans : (a b c : F) → lt b a ≡ false → lt c b ≡ false → lt c a ≡ false
  pub lt_lit : (m n : ℕ) → lt (lit m) (lit n) ≡ ltb m n

-- A value shows that the laws can be met: whole numbers of hundredths.
pub ltb_negtrans : (a b c : ℕ) → ltb b a ≡ false → ltb c b ≡ false → ltb c a ≡ false
ltb_negtrans a b c h g = ground arith

pub ltb_asym : (a b : ℕ) → ltb a b ≡ true → ltb b a ≡ false
ltb_asym a b h = ground arith

abbrev pub hundredths : Floats
hundredths = record {
  F = ℕ;
  lt = ltb;
  lit = λ n. n;
  single = λ a. a;
  lt_asym = ltb_asym;
  le_trans = ltb_negtrans;
  lt_lit = λ m n. refl;
}

module _ (fl : Floats) where
  open fl use {F, lt, lit}

  -- min(a, b), max(a, b)
  abbrev pub min_f : F → F → F
  min_f a b = if lt b a then b else a

  abbrev pub max_f : F → F → F
  max_f a b = if lt a b then b else a

  -- a == 0.0
  abbrev pub is_zero : F → Bool
  is_zero a = if lt a (lit 0) then false else not (lt (lit 0) a)
