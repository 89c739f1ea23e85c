-- ===== src/Ingest/Pcap/Sublist.antt =====
-- A list with some of the elements of another, in their order.
use sih.Prelude.{◌++◌, ◌∷◌, [], List}

pub data Sublist {A : Type 0} : List A → List A → Type 0 where
  nil : Sublist [] []
  skip : {xs ys : List A} (y : A) → Sublist xs ys → Sublist xs (y ∷ ys)
  keep : {xs ys : List A} (x : A) → Sublist xs ys → Sublist (x ∷ xs) (x ∷ ys)

module _ {A : Type 0} where
  pub skip_last : {xs ys : List A} (y : A) → Sublist xs ys → Sublist xs (ys ++ y ∷ [])
  skip_last y nil = skip y nil
  skip_last y (skip x s) = skip x (skip_last y s)
  skip_last y (keep x s) = keep x (skip_last y s)

  pub keep_last : {xs ys : List A} (y : A) → Sublist xs ys → Sublist (xs ++ y ∷ []) (ys ++ y ∷ [])
  keep_last y nil = keep y nil
  keep_last y (skip x s) = skip x (keep_last y s)
  keep_last y (keep x s) = keep x (keep_last y s)
