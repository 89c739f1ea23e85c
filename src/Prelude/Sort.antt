-- ===== src/Prelude/Sort.antt =====
-- A stable sort by insertion, and the counts of equal keys.
use mathlib.Core.Path.{◌≡◌, refl}
use mathlib.Core.Bool.{Bool, true, false}
use mathlib.Core.List.{List, [], ◌∷◌}
use Prim.Native.Nat.{ℕ, ◌+◌}
use native.Mathlib.Omega.{arith}
use sih.Prelude.Tests.{if◌then◌else◌}
use sih.Prelude.Lists.{length}
use sih.Prelude.Eq.{Eq}

module _ {ℓ} {A : Type ℓ} (before : A → A → Bool) where
  unfoldable pub insert_sorted : A → List A → List A
  insert_sorted a [] = a ∷ []
  insert_sorted a (b ∷ rest) =
      let later = insert_sorted a rest in if before b a then b ∷ later else a ∷ b ∷ rest

  unfoldable pub sort_by : List A → List A
  unfolding insert_sorted
  sort_by [] = []
  sort_by (a ∷ rest) = insert_sorted a (sort_by rest)

  -- No element stands right after one that it should come before.
  abbrev pub IsOrdered : List A → Type 0
  IsOrdered [] = Unit
  IsOrdered (a ∷ []) = Unit
  IsOrdered (a ∷ b ∷ rest) = (before b a ≡ false) × IsOrdered (b ∷ rest)

  length-insert_sorted : (a : A) (l : List A) → length (insert_sorted a l) ≡ length l + 1
  unfolding insert_sorted
  length-insert_sorted a [] = omega arith
  length-insert_sorted a (b ∷ rest) = ground (arith, length-insert_sorted a rest)

  pub length-sort_by : (l : List A) → length (sort_by l) ≡ length l
  unfolding sort_by
  length-sort_by [] = refl
  length-sort_by (a ∷ rest) =
      omega (arith, length-insert_sorted a (sort_by rest), length-sort_by rest)

  insert_sorted-IsOrdered :
      (a : A) (l : List A)
      → ((x y : A) → before x y ≡ true → before y x ≡ false)
      → IsOrdered l
      → IsOrdered (insert_sorted a l)
  unfolding insert_sorted
  insert_sorted-IsOrdered a [] asym h = tt
  insert_sorted-IsOrdered a (b ∷ []) asym h = ground (arith, asym b a)
  insert_sorted-IsOrdered a (b ∷ c ∷ rest) asym h =
      ground (arith, asym b a, insert_sorted-IsOrdered a (c ∷ rest) asym h.1)

  pub sort_by-IsOrdered :
      (l : List A) → ((x y : A) → before x y ≡ true → before y x ≡ false) → IsOrdered (sort_by l)
  unfolding sort_by
  sort_by-IsOrdered [] asym = tt
  sort_by-IsOrdered (a ∷ rest) asym =
      insert_sorted-IsOrdered a (sort_by rest) asym (sort_by-IsOrdered rest asym)

module _ {ℓ} {K : Type ℓ} ⦃e : Eq K⦄ where
  -- counts[k] += 1 of a dictionary that starts empty
  unfoldable pub bump_count : K → List (K × ℕ) → List (K × ℕ)
  bump_count k [] = (k, 1) ∷ []
  bump_count k ((j, n) ∷ counts) =
      let rest = bump_count k counts in if e.beq j k then (j, n + 1) ∷ counts else (j, n) ∷ rest

  unfoldable pub tally : List K → List (K × ℕ)
  unfolding bump_count
  tally [] = []
  tally (k ∷ keys) = bump_count k (tally keys)

  -- How often a key stands in a list.
  unfoldable pub occurrences : K → List K → ℕ
  occurrences k [] = 0
  occurrences k (j ∷ keys) = let rest = occurrences k keys in if e.beq j k then rest + 1 else rest

  pub sum_counts : List (K × ℕ) → ℕ
  sum_counts [] = 0
  sum_counts ((k, n) ∷ counts) = n + sum_counts counts

  sum_counts-bump_count :
      (k : K) (counts : List (K × ℕ)) → sum_counts (bump_count k counts) ≡ sum_counts counts + 1
  unfolding sum_counts bump_count
  sum_counts-bump_count k [] = omega arith
  sum_counts-bump_count k ((j, n) ∷ counts) = ground (arith, sum_counts-bump_count k counts)

  pub sum_counts-tally : (keys : List K) → sum_counts (tally keys) ≡ length keys
  unfolding tally sum_counts
  sum_counts-tally [] = refl
  sum_counts-tally (k ∷ keys) =
      omega (arith, sum_counts-bump_count k (tally keys), sum_counts-tally keys)

  sum_counts-insert_sorted :
      (before : K × ℕ → K × ℕ → Bool) (entry : K × ℕ) (l : List (K × ℕ))
      → sum_counts (insert_sorted before entry l) ≡ entry.1 + sum_counts l
  unfolding insert_sorted sum_counts
  sum_counts-insert_sorted before entry [] = refl
  sum_counts-insert_sorted before entry (b ∷ rest) =
      ground (arith, sum_counts-insert_sorted before entry rest)

  pub sum_counts-sort_by :
      (before : K × ℕ → K × ℕ → Bool) (l : List (K × ℕ))
      → sum_counts (sort_by before l) ≡ sum_counts l
  unfolding sort_by sum_counts
  sum_counts-sort_by before [] = refl
  sum_counts-sort_by before (entry ∷ l) =
      omega (
        arith,
        sum_counts-insert_sorted before entry (sort_by before l),
        sum_counts-sort_by before l,
      )
