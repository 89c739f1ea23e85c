-- ===== src/Dict/Keys.antt =====
-- The keys of a dictionary in order, and lists of keys without repetition.
use sih.Prelude.{
  ◌≡◌, refl, ap, Bool, true, false, some, List, [], ◌∷◌, ◌++◌, ◌||◌, arith, if◌then◌else◌, is_some,
}
use sih.Prelude.Eq.{Eq}
use sih.Dict.{lookup, erase, put}

abbrev pub keys {ℓ κ} : {K : Type ℓ} {V : Type κ} → List (K × V) → List K
keys [] = []
keys ((k, v) ∷ d) = k ∷ keys d

module _ {ℓ} {K : Type ℓ} ⦃e : Eq K⦄ where
  unfoldable pub occurs : K → List K → Bool
  occurs k [] = false
  occurs k (j ∷ ks) = e.beq j k || occurs k ks

  unfoldable pub erase_key : K → List K → List K
  erase_key k [] = []
  erase_key k (j ∷ ks) = let rest = erase_key k ks in if e.beq j k then ks else j ∷ rest

  abbrev pub NoRepeat : List K → Type 0
  NoRepeat [] = Unit
  NoRepeat (k ∷ ks) = (occurs k ks ≡ false) × NoRepeat ks

  pub occurs-append : (k : K) (xs ys : List K) → occurs k (xs ++ ys) ≡ (occurs k xs || occurs k ys)
  unfolding occurs
  occurs-append k [] ys = refl
  occurs-append k (x ∷ xs) ys = ground (arith, occurs-append k xs ys)

  erase_key_absent : (k : K) (ks : List K) → occurs k ks ≡ false → erase_key k ks ≡ ks
  unfolding occurs erase_key
  erase_key_absent k [] h = refl
  erase_key_absent k (j ∷ ks) h = ground (arith, erase_key_absent k ks)

  pub erase_key-append_right :
      (k : K) (xs ys : List K) → occurs k xs ≡ false → erase_key k (xs ++ ys) ≡ xs ++ erase_key k ys
  unfolding occurs erase_key
  erase_key-append_right k [] ys h = refl
  erase_key-append_right k (x ∷ xs) ys h = ground (arith, erase_key-append_right k xs ys)

  pub erase_key-append_left :
      (k : K) (xs ys : List K) → occurs k ys ≡ false → erase_key k (xs ++ ys) ≡ erase_key k xs ++ ys
  unfolding occurs erase_key
  erase_key-append_left k [] ys h = erase_key_absent k ys h
  erase_key-append_left k (x ∷ xs) ys h = ground (arith, erase_key-append_left k xs ys h)

  pub occurs-erase_key :
      (k j : K) (ks : List K)
      → NoRepeat ks
      → occurs j (erase_key k ks) ≡ (if e.beq k j then false else occurs j ks)
  unfolding occurs erase_key
  occurs-erase_key k j [] h = ground arith
  occurs-erase_key k j (i ∷ ks) h =
      ground (arith, e.beq_iff k j, e.beq_iff i k, e.beq_iff i j, occurs-erase_key k j ks h.1)

  pub NoRepeat-erase_key : (k : K) (ks : List K) → NoRepeat ks → NoRepeat (erase_key k ks)
  unfolding occurs erase_key
  NoRepeat-erase_key k [] h = tt
  NoRepeat-erase_key k (i ∷ ks) h =
      ground (arith, occurs-erase_key k i ks h.1, NoRepeat-erase_key k ks h.1)

  pub NoRepeat-append_new :
      (k : K) (ks : List K) → NoRepeat ks → occurs k ks ≡ false → NoRepeat (ks ++ k ∷ [])
  unfolding occurs
  NoRepeat-append_new k [] h n = ground arith
  NoRepeat-append_new k (i ∷ ks) h n = ground (
    arith,
    e.beq_iff i k,
    e.beq_iff k i,
    occurs-append i ks (k ∷ []),
    NoRepeat-append_new k ks h.1,
  )

  -- A key of the second part is not in the first.
  pub occurs-left_false :
      (k : K) (xs ys : List K) → NoRepeat (xs ++ ys) → occurs k ys ≡ true → occurs k xs ≡ false
  unfolding occurs
  occurs-left_false k [] ys h n = refl
  occurs-left_false k (x ∷ xs) ys h n =
      ground (arith, e.beq_iff x k, occurs-append x xs ys, occurs-left_false k xs ys h.1 n)

module _ {ℓ κ} {K : Type ℓ} {V : Type κ} ⦃e : Eq K⦄ where
  pub occurs-keys : (k : K) (d : List (K × V)) → occurs k (keys d) ≡ is_some (lookup k d)
  unfolding occurs lookup
  occurs-keys k [] = refl
  occurs-keys k ((j, v) ∷ d) = ground (arith, occurs-keys k d)

  pub keys-erase : (k : K) (d : List (K × V)) → keys (erase k d) ≡ erase_key k (keys d)
  unfolding erase erase_key
  keys-erase k [] = refl
  keys-erase k ((j, v) ∷ d) = ground (arith, keys-erase k d)

  pub keys-append : (d f : List (K × V)) → keys (d ++ f) ≡ keys d ++ keys f
  keys-append [] f = refl
  keys-append ((j, v) ∷ d) f = ap (◌∷◌ j) (keys-append d f)

  pub keys-put_old :
      (k : K) (v : V) (d : List (K × V)) {w : V} → lookup k d ≡ some w → keys (put k v d) ≡ keys d
  unfolding lookup put
  keys-put_old k v [] h = cc
  keys-put_old k v ((j, u) ∷ d) {w} h = ground (arith, keys-put_old k v d {w = w})
