-- ===== src/Detectors/Encrypted/Alarms.antt =====
-- The alarms of the classifier of encrypted traffic.
use sih.Detectors.{Row, Prediction, Model, Features, classifier, outlier_model}
use sih.Prelude.{arith, List, some, none, Option, ◌≡◌}
use sih.Floats.{Floats}
use sih.Detectors.Encrypted.{encrypted_used, Handshakes, encrypted_ml, encrypted_predict, scored}
use sih.Detectors.Rules.Explained.{IsMatched}

module _ (fl : Floats) where
  open fl use {F, lt, lit, lt_lit}

  scored-IsMatched :
      (used : Features F) (o : Option (Row F)) (p : Prediction F)
      → scored fl used o ≡ some p
      → IsMatched fl p
  unfolding scored
  scored-IsMatched used none p h = cc
  scored-IsMatched used (some row) p h = ground (arith, lt_lit 50 0)

  encrypted_ml-IsMatched :
      (model : Option (Model F)) (used : Features F) (p : Prediction F)
      → encrypted_ml fl model used ≡ some p
      → IsMatched fl p
  unfolding encrypted_ml
  encrypted_ml-IsMatched none used p h = ground (arith, lt_lit 50 0)
  encrypted_ml-IsMatched (some (outlier_model labels)) used p h = ground (arith, lt_lit 50 0)
  encrypted_ml-IsMatched (some (classifier proba)) used p h = scored-IsMatched used _ p h

  -- Whatever the handshakes, the mean, the variance and the model, a prediction of the classifier of
  -- encrypted traffic is explained exactly when its score is above 0.5.
  pub encrypted-IsMatched :
      (mean var : List F → F) (model : Option (Model F)) (v : Handshakes F) (p : Prediction F)
      → encrypted_predict fl mean var model v ≡ some p
      → IsMatched fl p
  unfolding encrypted_predict
  encrypted-IsMatched mean var model v p h =
      ground (arith, lt_lit 50 0, encrypted_ml-IsMatched model (encrypted_used fl mean var v) p)
