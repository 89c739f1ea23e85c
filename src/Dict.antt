-- ===== src/Dict.antt =====
-- Python's dict and OrderedDict, as the program uses them: the entries in order of insertion.
pub mod Laws
pub mod Counts
pub mod Keys
use sih.Prelude.{◌≡◌, Option, none, some, List, [], ◌∷◌, if◌then◌else◌}
use sih.Prelude.Eq.{Eq}

module _ {ℓ κ} {K : Type ℓ} {V : Type κ} ⦃e : Eq K⦄ where
  -- d.get(k), d[k]
  unfoldable pub lookup : K → List (K × V) → Option V
  lookup k [] = none
  lookup k ((j, v) ∷ d) = if e.beq j k then some v else lookup k d

  -- d.pop(k, None)
  unfoldable pub erase : K → List (K × V) → List (K × V)
  erase k [] = []
  erase k ((j, v) ∷ d) = let rest = erase k d in if e.beq j k then d else (j, v) ∷ rest

  -- d[k] = v: in place if the key is there, at the end if it is not.
  unfoldable pub put : K → V → List (K × V) → List (K × V)
  put k v [] = (k, v) ∷ []
  put k v ((j, w) ∷ d) = let rest = put k v d in if e.beq j k then (j, v) ∷ d else (j, w) ∷ rest

  -- Every key once: true of a dict by construction.
  abbrev pub Distinct : List (K × V) → Type κ
  Distinct [] = Unit
  Distinct ((k, v) ∷ d) = (lookup k d ≡ none) × Distinct d
