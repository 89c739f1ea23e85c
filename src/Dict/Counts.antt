-- ===== src/Dict/Counts.antt =====
-- The dictionary of counts as a dictionary: each key once, with the number of its occurrences.
use sih.Prelude.Sort.{tally, bump_count, occurrences, sort_by, insert_sorted}
use sih.Prelude.{
  ◌∙◌, arith, ◌≡◌, refl, Option, some, none, List, [], ◌∷◌, ℕ, ◌+◌, Bool, if◌then◌else◌, nat_beq,
}
use sih.Prelude.Eq.{Eq}
use sih.Dict.{lookup, Distinct}

-- No entry for a key that never occurs.
abbrev pub count_entry : ℕ → Option ℕ
count_entry n = if nat_beq n 0 then none else some n

abbrev one_more : Option ℕ → Option ℕ
one_more none = some 1
one_more (some n) = some (n + 1)

module _ {ℓ} {K : Type ℓ} ⦃e : Eq K⦄ where
  lookup-bump_count :
      (k j : K) (counts : List (K × ℕ))
      → lookup j (bump_count k counts)
        ≡ (if e.beq k j then one_more (lookup j counts) else lookup j counts)
  unfolding lookup bump_count
  lookup-bump_count k j [] = ground (arith, e.beq_iff k j)
  lookup-bump_count k j ((i, n) ∷ counts) =
      ground (arith, e.beq_iff k j, e.beq_iff i k, e.beq_iff i j, lookup-bump_count k j counts)

  Distinct-bump_count :
      (k : K) (counts : List (K × ℕ)) → Distinct counts → Distinct (bump_count k counts)
  unfolding bump_count lookup
  Distinct-bump_count k [] h = ground arith
  Distinct-bump_count k ((i, n) ∷ counts) h = ground (
    arith,
    e.beq_iff i k,
    e.beq_iff k i,
    lookup-bump_count k i counts,
    Distinct-bump_count k counts h.1,
  )

  pub Distinct-tally : (keys : List K) → Distinct (tally keys)
  unfolding tally
  Distinct-tally [] = tt
  Distinct-tally (k ∷ keys) = Distinct-bump_count k (tally keys) (Distinct-tally keys)

  pub lookup-tally :
      (k : K) (keys : List K) → lookup k (tally keys) ≡ count_entry (occurrences k keys)
  unfolding tally occurrences lookup
  lookup-tally k [] = refl
  lookup-tally k (j ∷ keys) =
      ground (arith, lookup-bump_count j k (tally keys), lookup-tally k keys)

  module _ {κ} {V : Type κ} (before : K × V → K × V → Bool) where
    lookup-insert_sorted :
        (k j : K) (v : V) (l : List (K × V))
        → lookup k l ≡ none
        → lookup j (insert_sorted before (k, v) l) ≡ (if e.beq k j then some v else lookup j l)
    unfolding insert_sorted lookup
    lookup-insert_sorted k j v [] h = refl
    lookup-insert_sorted k j v ((i, w) ∷ l) h =
        ground (arith, e.beq_iff i k, e.beq_iff k j, e.beq_iff i j, lookup-insert_sorted k j v l)

    Distinct-insert_sorted :
        (k : K) (v : V) (l : List (K × V))
        → lookup k l ≡ none
        → Distinct l
        → Distinct (insert_sorted before (k, v) l)
    unfolding insert_sorted lookup
    Distinct-insert_sorted k v [] h d = ground arith
    Distinct-insert_sorted k v ((i, w) ∷ l) h d = ground (
      arith,
      e.beq_iff i k,
      e.beq_iff k i,
      lookup-insert_sorted k i v l,
      Distinct-insert_sorted k v l,
    )

    -- A sort keeps each key once, and what stands under it.
    pub sort_by_keeps :
        (l : List (K × V))
        → Distinct l
        → Distinct (sort_by before l) × ((j : K) → lookup j (sort_by before l) ≡ lookup j l)
    unfolding sort_by lookup
    sort_by_keeps [] d = (tt, λ j. refl)
    sort_by_keeps ((k, v) ∷ l) d =
        let (distinct, same) = sort_by_keeps l d.1 in
        let absent : lookup k (sort_by before l) ≡ none = same k ∙ d.0 in
        (
          Distinct-insert_sorted k v (sort_by before l) absent distinct,
          λ j. ground (arith, lookup-insert_sorted k j v (sort_by before l), same j),
        )
