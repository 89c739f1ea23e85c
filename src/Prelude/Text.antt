-- ===== src/Prelude/Text.antt =====
-- Python's order on texts, by code points, and `sorted` of two values.
use Prim.Native.Char.{code}
use text.Mathlib.TextEquality.{codes_equal}
use mathlib.Core.Path.{◌≡◌, refl, ap₂}
use mathlib.Core.Bool.{Bool, true, false}
use Prim.Native.String.{String}
use native.Mathlib.Omega.{arith}
use sih.Prelude.Tests.{ltb, if◌then◌else◌}

-- a < b
unfoldable pub text_lt : String → String → Bool
text_lt String.[] String.[] = false
text_lt String.[] (String.◌∷◌ d t) = true
text_lt (String.◌∷◌ c s) String.[] = false
text_lt (String.◌∷◌ c s) (String.◌∷◌ d t) =
    let rest = text_lt s t in
    if ltb (code c) (code d) then true else if ltb (code d) (code c) then false else rest

pub text_lt_asym : (s t : String) → text_lt s t ≡ true → text_lt t s ≡ false
unfolding text_lt
text_lt_asym String.[] String.[] h = refl
text_lt_asym String.[] (String.◌∷◌ d t) h = refl
text_lt_asym (String.◌∷◌ c s) String.[] h = cc
text_lt_asym (String.◌∷◌ c s) (String.◌∷◌ d t) h = ground (arith, text_lt_asym s t)

pub text_lt_total : (s t : String) → text_lt s t ≡ false → text_lt t s ≡ false → s ≡ t
unfolding text_lt
text_lt_total String.[] String.[] h g = refl
text_lt_total String.[] (String.◌∷◌ d t) h g = cc
text_lt_total (String.◌∷◌ c s) String.[] h g = cc
text_lt_total (String.◌∷◌ c s) (String.◌∷◌ d t) h g =
    ap₂ String.◌∷◌ (codes_equal c d (ground arith))
      (text_lt_total s t (ground arith) (ground arith))

-- sorted([a, b]): the sort is stable, so equal values keep their places.
abbrev pub sort_pair : {A : Type 0} → (A → A → Bool) → A → A → A × A
sort_pair lt a b = if lt b a then (b, a) else (a, b)
