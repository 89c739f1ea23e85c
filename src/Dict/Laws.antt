-- ===== src/Dict/Laws.antt =====
-- The laws of the dictionary operations.
use sih.Prelude.{
  ℕ, ◌+◌, ◌≡◌, refl, Option, none, some, List, [], ◌∷◌, ◌++◌, arith, if◌then◌else◌, length,
}
use sih.Prelude.Eq.{Eq}
use sih.Dict.{lookup, erase, put, Distinct}

-- The first of two answers that is there.
abbrev pub first {ℓ} : {A : Type ℓ} → Option A → Option A → Option A
first none o = o
first (some a) o = some a

abbrev pub number_at {ℓ} : {A : Type ℓ} → (A → ℕ) → Option A → ℕ
number_at f none = 0
number_at f (some v) = f v

module _ {ℓ κ} {K : Type ℓ} {V : Type κ} ⦃e : Eq K⦄ where
  pub lookup-put :
      (k j : K) (v : V) (d : List (K × V))
      → lookup j (put k v d) ≡ (if e.beq k j then some v else lookup j d)
  unfolding lookup put
  lookup-put k j v [] = refl
  lookup-put k j v ((i, w) ∷ d) =
      ground (arith, e.beq_iff k j, e.beq_iff i k, e.beq_iff i j, lookup-put k j v d)

  pub lookup-append :
      (j : K) (d f : List (K × V)) → lookup j (d ++ f) ≡ first (lookup j d) (lookup j f)
  unfolding lookup
  lookup-append j [] f = refl
  lookup-append j ((i, w) ∷ d) f = ground (arith, lookup-append j d f)

  pub lookup-erase :
      (k j : K) (d : List (K × V))
      → Distinct d
      → lookup j (erase k d) ≡ (if e.beq k j then none else lookup j d)
  unfolding lookup erase
  lookup-erase k j [] h = ground arith
  lookup-erase k j ((i, w) ∷ d) h =
      ground (arith, e.beq_iff k j, e.beq_iff i k, e.beq_iff i j, lookup-erase k j d h.1)

  pub Distinct-put : (k : K) (v : V) (d : List (K × V)) → Distinct d → Distinct (put k v d)
  unfolding lookup put
  Distinct-put k v [] h = ground arith
  Distinct-put k v ((i, w) ∷ d) h =
      ground (arith, e.beq_iff i k, e.beq_iff k i, lookup-put k i v d, Distinct-put k v d h.1)

  pub Distinct-erase : (k : K) (d : List (K × V)) → Distinct d → Distinct (erase k d)
  unfolding lookup erase
  Distinct-erase k [] h = tt
  Distinct-erase k ((i, w) ∷ d) h = ground (arith, lookup-erase k i d h.1, Distinct-erase k d h.1)

  pub Distinct-append_new :
      (k : K) (v : V) (d : List (K × V))
      → Distinct d
      → lookup k d ≡ none
      → Distinct (d ++ (k, v) ∷ [])
  unfolding lookup
  Distinct-append_new k v [] h n = ground arith
  Distinct-append_new k v ((i, w) ∷ d) h n = ground (
    arith,
    e.beq_iff i k,
    e.beq_iff k i,
    lookup-append i d ((k, v) ∷ []),
    Distinct-append_new k v d h.1,
  )

  pub length-erase :
      (k : K) (d : List (K × V)) {v : V} → lookup k d ≡ some v → length (erase k d) + 1 ≡ length d
  unfolding lookup erase
  length-erase k [] h = cc
  length-erase k ((i, w) ∷ d) {v} h = ground (arith, length-erase k d {v = v})

  pub put_new :
      (k : K) (v : V) (d : List (K × V)) → lookup k d ≡ none → put k v d ≡ d ++ (k, v) ∷ []
  unfolding lookup put
  put_new k v [] h = refl
  put_new k v ((i, w) ∷ d) h = ground (arith, put_new k v d)

  pub length-put_old :
      (k : K) (v : V) (d : List (K × V)) {w : V}
      → lookup k d ≡ some w
      → length (put k v d) ≡ length d
  unfolding lookup put
  length-put_old k v [] h = cc
  length-put_old k v ((i, u) ∷ d) {w} h = ground (arith, length-put_old k v d {w = w})

  erase_absent : (k : K) (d : List (K × V)) → lookup k d ≡ none → erase k d ≡ d
  unfolding lookup erase
  erase_absent k [] h = refl
  erase_absent k ((i, w) ∷ d) h = ground (arith, erase_absent k d)

  -- The sum of a number over the values.
  unfoldable pub sum_values : (V → ℕ) → List (K × V) → ℕ
  sum_values f [] = 0
  sum_values f ((k, v) ∷ d) = f v + sum_values f d

  pub sum_values-put :
      (f : V → ℕ) (k : K) (v : V) (d : List (K × V))
      → sum_values f (put k v d) + number_at f (lookup k d) ≡ sum_values f d + f v
  unfolding put lookup sum_values
  sum_values-put f k v [] = omega arith
  sum_values-put f k v ((j, w) ∷ d) = ground (arith, sum_values-put f k v d)
