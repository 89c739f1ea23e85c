-- ===== src/Detectors/Encrypted.antt =====
-- EncryptedTrafficClassifier of models/encrypted_traffic_classifier.py. numpy's mean and variance of
-- a list that is not empty are parameters.
pub mod Alarms
mod Tests
use sih.Detectors.Rules.{outcome, as_row}
use sih.Detectors.{
  forest_scored, empty, Row, Prediction, first_row, Model, row_score, Features, classifier,
  outlier_model,
}
use sih.Prelude.{◌∷◌, [], List, some, none, Option, ◌&&◌, false, true, Bool, if◌then◌else◌}
use sih.Floats.{is_zero, Floats}

-- What `predict` reads of the feature vector; a missing list reads as an empty one.
pub record Handshakes (F : Type 0) : Type 0 where
  pub packet_sizes : List F
  pub packet_ipts : List F
  pub sni_length_ewma : F

module _ (fl : Floats) where
  open fl use {F, lt, lit}

  -- `np.mean(packet_sizes) if packet_sizes else 0`
  unfoldable pub or_zero : (List F → F) → List F → F
  or_zero moment [] = lit 0
  or_zero moment (a ∷ rest) = moment (a ∷ rest)

  unfoldable pub encrypted_used : (mean var : List F → F) → Handshakes F → Features F
  unfolding or_zero
  encrypted_used mean var v =
      ("mean_size", or_zero mean v.packet_sizes)
      ∷ ("var_size", or_zero var v.packet_sizes)
      ∷ ("mean_ipt", or_zero mean v.packet_ipts)
      ∷ ("sni_length_ewma", v.sni_length_ewma)
      ∷ []

  abbrev pub is_empty : List F → Bool
  is_empty [] = true
  is_empty (a ∷ rest) = false

  abbrev pub is_silent : Handshakes F → Bool
  is_silent v = is_empty v.packet_sizes && is_empty v.packet_ipts && is_zero fl v.sni_length_ewma

  unfoldable pub scored : Features F → Option (Row F) → Option (Prediction F)
  unfolding row_score
  scored used none = none
  scored used (some row) = some (
      if lt (lit 50) (row_score row)
      then outcome fl (row_score row) used (forest_scored (row_score row))
      else outcome fl (lit 0) used empty)

  unfoldable pub encrypted_ml : Option (Model F) → Features F → Option (Prediction F)
  unfolding scored first_row as_row
  encrypted_ml none used = some (outcome fl (lit 0) used empty)
  encrypted_ml (some (outlier_model labels)) used = some (outcome fl (lit 0) used empty)
  encrypted_ml (some (classifier proba)) used =
      scored used (first_row (proba (as_row fl used ∷ [])))

  unfoldable pub encrypted_predict :
      (mean var : List F → F) → Option (Model F) → Handshakes F → Option (Prediction F)
  unfolding encrypted_used encrypted_ml
  encrypted_predict mean var model v =
      if is_silent v
      then some (outcome fl (lit 0) (encrypted_used mean var v) empty)
      else encrypted_ml model (encrypted_used mean var v)
