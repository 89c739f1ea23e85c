-- ===== src/Assembler/Table/Uses.antt =====
-- A list of keys by their last use.
use sih.Prelude.{
  ℕ, ◌≤◌, ◌≡◌, refl, ap, true, false, List, [], ◌∷◌, ◌++◌, arith, leb, drop, take, append_assoc,
  ◌∙◌,
}
use sih.Prelude.Eq.{Eq}
use sih.Dict.Keys.{
  keys, occurs, erase_key, NoRepeat, erase_key-append_right, erase_key-append_left,
  occurs-erase_key, NoRepeat-erase_key, NoRepeat-append_new,
}

module _ {ℓ} {K : Type ℓ} ⦃e : Eq K⦄ where
  -- A use of a key makes it the last of the history.
  unfoldable pub touch : K → List K → List K
  touch k history = erase_key k history ++ k ∷ []

  pub touch-NoRepeat : (k : K) (h : List K) → NoRepeat h → NoRepeat (touch k h)
  unfolding touch
  touch-NoRepeat k h n =
      NoRepeat-append_new k (erase_key k h) (NoRepeat-erase_key k h n)
        (ground (arith, occurs-erase_key k k h n, e.beq_iff k k))

  pub touch_right :
      (k : K) (xs ys : List K) → occurs k xs ≡ false → touch k (xs ++ ys) ≡ xs ++ touch k ys
  unfolding touch
  touch_right k xs ys h =
      ap (λ (l : List K). l ++ k ∷ []) (erase_key-append_right k xs ys h)
      ∙ append_assoc xs (erase_key k ys) (k ∷ [])

  pub touch_left :
      (k : K) (xs ys : List K)
      → occurs k ys ≡ false
      → touch k (xs ++ ys) ≡ (erase_key k xs ++ ys) ++ k ∷ []
  unfolding touch
  touch_left k xs ys h = ap (λ (l : List K). l ++ k ∷ []) (erase_key-append_left k xs ys h)

pub regroup {ℓ} :
    {K : Type ℓ} (k : K) (older x rest : List K) {ks : List K}
    → ks ≡ x ++ rest
    → (older ++ ks) ++ k ∷ [] ≡ (older ++ x) ++ (rest ++ k ∷ [])
regroup k older x rest e = simp (e, append_assoc)

pub leb_le : (a b : ℕ) → leb a b ≡ true → a ≤ b
leb_le a b h = ground arith

pub take-drop-keys {ℓ κ} :
    {K : Type ℓ} {V : Type κ} (d : List (K × V)) → take 1 (keys d) ++ keys (drop 1 d) ≡ keys d
take-drop-keys [] = refl
take-drop-keys (x ∷ d) = refl
