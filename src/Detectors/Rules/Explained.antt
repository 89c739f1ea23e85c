-- ===== src/Detectors/Rules/Explained.antt =====
-- The contract of BaseDetector.predict in models/base_detector.py: the explanation of an alarm is not
-- empty. inference/worker.py takes a score above 0.5 as an alarm.
use sih.Floats.{Floats, max_f, is_zero}
use sih.Detectors.{
  scan_anomaly, exfiltration_anomaly, row_score, Row, classifier, outlier_model, outlier, inlier,
  Prediction, Explanation, is_explained, Features, Model, Label,
}
use sih.Detectors.Rules.{
  dns_verdict, dns_row, avg_ent, heuristic_predict, beaconing_ml, exfiltration_used, forest_ml,
  avg_len, recon_used, dga_ml, beaconing_predict, dga_predict, exfiltration_predict, recon_predict,
  dns_exfil_predict, svm_verdict, gbt_verdict, forest_verdict, prefilter,
}
use sih.Detectors.Ddos.{ddos_predict, predict_ml}
use sih.Prelude.{◌∷◌, [], inr, inl, refl, Bool-cases, arith, List, none, some, Option, true, ◌≡◌}

module _ (fl : Floats) where
  open fl use {F, lt, lit, lt_lit, le_trans, lt_asym}

  -- The prediction is explained exactly when its score is above 0.5.
  abbrev pub IsMatched : Prediction F → Type 0
  IsMatched p = is_explained p.explanation ≡ lt (lit 50) p.score

  ddos_ml-IsMatched :
      (model : Option (Model F)) (v : Features F) (p : Prediction F)
      → predict_ml fl model v ≡ some p
      → IsMatched p
  unfolding predict_ml
  ddos_ml-IsMatched none v p h = ground (arith, lt_lit 50 0)
  ddos_ml-IsMatched (some (classifier proba)) v p h = ground arith
  ddos_ml-IsMatched (some (outlier_model labels)) v p h = ground (arith, lt_lit 50 0, lt_lit 50 80)

  -- Whatever the features and the model, a prediction of the DDoS detector is explained exactly when
  -- its score is above 0.5.
  pub ddos-IsMatched :
      (model : Option (Model F)) (v : Features F) (p : Prediction F)
      → ddos_predict fl model v ≡ some p
      → IsMatched p
  unfolding ddos_predict
  ddos-IsMatched model v p h =
      ground
        (arith, lt_lit 50 0, lt_lit 50 95, lt_lit 50 98, lt_lit 50 92, ddos_ml-IsMatched model v p)

  svm-IsMatched :
      (cv : F) (used : Features F) (o : Option Label) (p : Prediction F)
      → svm_verdict fl cv used o ≡ some p
      → IsMatched p
  unfolding svm_verdict
  svm-IsMatched cv used none p h = cc
  svm-IsMatched cv used (some outlier) p h = ground (arith, lt_lit 50 0, lt_lit 50 85)
  svm-IsMatched cv used (some inlier) p h = ground (arith, lt_lit 50 0)

  beaconing_ml-IsMatched :
      (model : Option (List (List F) → List Label)) (v : Features F) (p : Prediction F)
      → beaconing_ml fl model v ≡ some p
      → IsMatched p
  unfolding beaconing_ml
  beaconing_ml-IsMatched none v p h = ground (arith, lt_lit 50 0)
  beaconing_ml-IsMatched (some labels) v p h = svm-IsMatched _ _ _ p h

  -- Whatever the features and the SVM, a prediction of the beaconing detector is explained exactly
  -- when its score is above 0.5.
  pub beaconing-IsMatched :
      (model : Option (List (List F) → List Label)) (v : Features F) (p : Prediction F)
      → beaconing_predict fl model v ≡ some p
      → IsMatched p
  unfolding beaconing_predict
  beaconing-IsMatched model v p h =
      ground (arith, lt_lit 50 0, lt_lit 50 90, beaconing_ml-IsMatched model v p)

  -- The larger of two scores is above 0.5 where the second is.
  max_above : (a b : F) → lt (lit 50) b ≡ true → lt (lit 50) (max_f fl a b) ≡ true
  max_above a b h = ground (arith, le_trans b a (lit 50))

  abbrev IsMatchedPair : F × Explanation F → Type 0
  IsMatchedPair (score, explanation) = is_explained explanation ≡ lt (lit 50) score

  prefilter-IsMatchedPair : (ent len : F) → IsMatchedPair (prefilter fl ent len)
  unfolding prefilter
  prefilter-IsMatchedPair ent len = ground (arith, lt_lit 50 0, lt_lit 50 70)

  gbt-IsMatched :
      (filtered : F × Explanation F) (used : Features F) (o : Option (Row F)) (p : Prediction F)
      → IsMatchedPair filtered
      → gbt_verdict fl filtered used o ≡ some p
      → IsMatched p
  unfolding gbt_verdict
  gbt-IsMatched filtered used none p m h = cc
  gbt-IsMatched (score, explanation) used (some row) p m h =
      ground (arith, max_above score (row_score row))

  dga_ml-IsMatched :
      (filtered : F × Explanation F) (model : Option (Model F)) (v : Features F) (p : Prediction F)
      → IsMatchedPair filtered
      → dga_ml fl filtered model v ≡ some p
      → IsMatched p
  unfolding dga_ml
  dga_ml-IsMatched (score, explanation) none v p m h = ground arith
  dga_ml-IsMatched (score, explanation) (some (outlier_model labels)) v p m h = ground arith
  dga_ml-IsMatched filtered (some (classifier proba)) v p m h = gbt-IsMatched filtered _ _ p m h

  -- Whatever the features and the model, a prediction of the DGA classifier is explained exactly when
  -- its score is above 0.5.
  pub dga-IsMatched :
      (model : Option (Model F)) (v : Features F) (p : Prediction F)
      → dga_predict fl model v ≡ some p
      → IsMatched p
  unfolding dga_predict
  dga-IsMatched model v p h = elim (Bool-cases (is_zero fl (avg_len fl v))) [
    | inl quiet ↦ ground (arith, lt_lit 50 0)
    | inr loud ↦
        dga_ml-IsMatched (prefilter fl (avg_ent fl v) (avg_len fl v)) model v p
          (prefilter-IsMatchedPair (avg_ent fl v) (avg_len fl v)) (rw (loud, dga_predict) at h)
  ]

  forest_verdict-IsMatched :
      (used : Features F) (anomaly : Explanation F) (o : Option Label) (p : Prediction F)
      → is_explained anomaly ≡ true
      → forest_verdict fl used anomaly o ≡ some p
      → IsMatched p
  unfolding forest_verdict
  forest_verdict-IsMatched used anomaly none p e h = cc
  forest_verdict-IsMatched used anomaly (some outlier) p e h =
      ground (arith, max_above (lit 0) (lit 75), lt_lit 50 75)
  forest_verdict-IsMatched used anomaly (some inlier) p e h = ground (arith, lt_lit 50 0)

  forest_ml-IsMatched :
      (model : Option (List (List F) → List Label)) (used : Features F) (anomaly : Explanation F)
      (p : Prediction F)
      → is_explained anomaly ≡ true
      → forest_ml fl model used anomaly ≡ some p
      → IsMatched p
  unfolding forest_ml
  forest_ml-IsMatched none used anomaly p e h = ground (arith, lt_lit 50 0)
  forest_ml-IsMatched (some labels) used anomaly p e h =
      forest_verdict-IsMatched used anomaly _ p e h

  -- Whatever the features and the forest, a prediction of the exfiltration detector is explained
  -- exactly when its score is above 0.5.
  exfiltration-IsMatched :
      (model : Option (List (List F) → List Label)) (v : Features F) (p : Prediction F)
      → exfiltration_predict fl model v ≡ some p
      → IsMatched p
  unfolding exfiltration_predict
  exfiltration-IsMatched model v p h = ground (
    arith,
    lt_lit 50 0,
    lt_lit 50 85,
    forest_ml-IsMatched model (exfiltration_used fl v) exfiltration_anomaly p refl,
  )

  -- Whatever the features and the forest, a prediction of the scan detector is explained exactly when
  -- its score is above 0.5.
  pub recon-IsMatched :
      (model : Option (List (List F) → List Label)) (v : Features F) (p : Prediction F)
      → recon_predict fl model v ≡ some p
      → IsMatched p
  unfolding recon_predict
  recon-IsMatched model v p h = ground (
    arith,
    lt_lit 50 0,
    lt_lit 50 90,
    forest_ml-IsMatched model (recon_used fl v) scan_anomaly p refl,
  )

  heuristic-IsMatched : (v : Features F) → IsMatched (heuristic_predict fl v)
  unfolding heuristic_predict
  heuristic-IsMatched v = ground (arith, lt_lit 50 0, lt_lit 50 85)

  above_60 : (x : F) → lt (lit 60) x ≡ true → lt (lit 50) x ≡ true
  above_60 x h = ground (arith, le_trans x (lit 50) (lit 60), lt_lit 60 50, lt_asym (lit 60) x)

  dns_verdict_matched :
      (v : Features F) (o : Option F)
      → is_explained (dns_verdict fl v o).explanation ≡ true
      → lt (lit 50) (dns_verdict fl v o).score ≡ true
  unfolding dns_verdict
  dns_verdict_matched v none e = ground (arith, heuristic-IsMatched v)
  dns_verdict_matched v (some prob) e = ground (arith, above_60 prob)

  -- Whatever the features and the model, a prediction of the DNS exfiltration detector that is
  -- explained has a score above 0.5.
  dns_exfil_matched :
      (model : Option (List (List F) → Option F)) (v : Features F)
      → is_explained (dns_exfil_predict fl model v).explanation ≡ true
      → lt (lit 50) (dns_exfil_predict fl model v).score ≡ true
  unfolding dns_exfil_predict
  dns_exfil_matched none v e = ground (arith, heuristic-IsMatched v)
  dns_exfil_matched (some probability) v e =
      ground (arith, dns_verdict_matched v (probability (dns_row fl v ∷ [])))
