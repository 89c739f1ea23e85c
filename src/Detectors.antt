-- ===== src/Detectors.antt =====
-- The threat detectors of models/: what they share. A feature vector is a dictionary; the messages
-- of the detectors are the constructors of `Explanation`, with the values that they show.
pub mod Ddos
pub mod Rules
pub mod Encrypted
pub mod Loading
mod Tests
use sih.Floats.{Floats}
use sih.Dict.{lookup}
use sih.Prelude.Eq.{string_eq}
use sih.Prelude.{◌∷◌, [], List, some, none, Option, false, true, Bool, String}

-- -1 and 1, the answers of scikit-learn's outlier models
pub data Label : Type 0 where
  outlier inlier : Label

pub data Explanation (F : Type 0) : Type 0 where
  empty : Explanation F
  syn_flood amplification spoofed_flood lgbm_flagged : F → Explanation F
  volumetric_anomaly : Explanation F
  high_periodicity : F → F → Explanation F
  svm_flagged : F → Explanation F
  high_entropy_query : F → F → Explanation F
  gbt_flagged : F → Explanation F → Explanation F
  forest_scored : F → Explanation F
  exfiltration_risk : F → Explanation F
  exfiltration_anomaly : Explanation F
  syn_only_scan : F → F → Explanation F
  scan_anomaly : Explanation F
  dns_tunnel : F → F → Explanation F
  dns_heuristic : F → F → F → Explanation F

-- Python's truth of a text
abbrev pub is_explained : {F : Type 0} → Explanation F → Bool
is_explained empty = false
is_explained _ = true

abbrev pub Features : Type 0 → Type 0
Features F = List (String × F)

-- feature_vector.get(name, default)
abbrev pub feature : {F : Type 0} → String → F → Features F → F
feature name default v = elim (lookup name v) [ none ↦ default | some a ↦ a ]

-- The tuple (score, feature_values, explanation_string)
pub record Prediction (F : Type 0) : Type 0 where
  pub score : F
  pub features_used : Features F
  pub explanation : Explanation F

-- `model.predict(X)[0]` for an `X` of one row; `none` is an IndexError
unfoldable pub first_row : {A : Type 0} → List A → Option A
first_row [] = none
first_row (a ∷ rest) = some a

-- A row of `predict_proba`: the probability of class 0, and of the other classes.
abbrev pub Row : Type 0 → Type 0
Row F = F × List F

-- `probs[1] if len(probs) > 1 else probs[0]`
unfoldable pub row_score : {F : Type 0} → Row F → F
row_score (p, []) = p
row_score (p, q ∷ rest) = q

-- A model of joblib.load: with `predict_proba`, or with `predict` alone.
pub data Model (F : Type 0) : Type 0 where
  classifier : (List (List F) → List (Row F)) → Model F
  outlier_model : (List (List F) → List Label) → Model F

-- BaseDetector.predict_batch of models/base_detector.py: the loop over `predict`, which stops at
-- the first exception.
unfoldable pub base_predict_batch :
    {F : Type 0}
    → (Features F → Option (Prediction F))
    → List (Features F)
    → Option (List (Prediction F))
base_predict_batch predict [] = some []
base_predict_batch predict (v ∷ rest) =
    let later = base_predict_batch predict rest in
    elim (predict v) [ none ↦ none | some p ↦ elim later [ none ↦ none | some ps ↦ some (p ∷ ps) ] ]
