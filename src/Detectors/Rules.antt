-- ===== src/Detectors/Rules.antt =====
-- `predict` of the other detectors of models/: rules on thresholds, then a model. `none` is an
-- IndexError at the `[0]` of the model's answer.
pub mod Explained
use sih.Floats.{Floats, max_f, is_zero}
use sih.Detectors.{
  Label, outlier, inlier, Explanation, empty, high_periodicity, svm_flagged, high_entropy_query,
  gbt_flagged, exfiltration_risk, exfiltration_anomaly, syn_only_scan, scan_anomaly, dns_tunnel,
  dns_heuristic, Features, feature, Prediction, first_row, Row, row_score, Model, classifier,
  outlier_model,
}
use sih.Prelude.{◌∷◌, [], List, some, none, Option, ◌&&◌, if◌then◌else◌}

module _ (fl : Floats) where
  open fl use {F, lt, lit, single}

  abbrev pub outcome : F → Features F → Explanation F → Prediction F
  outcome score used explanation = record {
    score = score;
    features_used = used;
    explanation = explanation;
  }

  -- `np.array([list(features_used.values())], dtype=np.float32)`
  unfoldable pub as_row : Features F → List F
  as_row [] = []
  as_row ((name, a) ∷ rest) = single a ∷ as_row rest

  -- models/beaconing_detector.py: the SVM flags a pair with a low variation of its gaps
  unfoldable pub svm_verdict : F → Features F → Option Label → Option (Prediction F)
  svm_verdict cv used none = none
  svm_verdict cv used (some inlier) = some (outcome (lit 0) used empty)
  svm_verdict cv used (some outlier) = some (
      if lt cv (lit 50) then outcome (lit 85) used (svm_flagged cv) else outcome (lit 0) used empty)

  abbrev pub iat_cv : Features F → F
  iat_cv = feature "iat_cv" (lit 100)

  abbrev pub mean_iat : Features F → F
  mean_iat = feature "mean_iat" (lit 0)

  unfoldable pub beaconing_used : Features F → Features F
  beaconing_used v =
      ("iat_cv", iat_cv v)
      ∷ ("mean_iat", mean_iat v)
      ∷ ("dst_fan_in", feature "dst_fan_in" (lit 0) v)
      ∷ []

  unfoldable pub beaconing_ml :
      Option (List (List F) → List Label) → Features F → Option (Prediction F)
  unfolding svm_verdict first_row beaconing_used
  beaconing_ml none v = some (outcome (lit 0) (beaconing_used v) empty)
  beaconing_ml (some labels) v =
      svm_verdict (iat_cv v) (beaconing_used v)
        (first_row (labels ((single (iat_cv v) ∷ single (mean_iat v) ∷ []) ∷ [])))

  unfoldable pub beaconing_predict :
      Option (List (List F) → List Label) → Features F → Option (Prediction F)
  unfolding beaconing_ml
  beaconing_predict model v =
      if is_zero fl (mean_iat v)
      then some (outcome (lit 0) (beaconing_used v) empty)
      else if lt (lit 0) (mean_iat v) && lt (iat_cv v) (lit 10)
      then some (outcome (lit 90) (beaconing_used v) (high_periodicity (iat_cv v) (mean_iat v)))
      else beaconing_ml model v

  -- models/dga_classifier.py: the pre-filter, then the gradient-boosted trees
  unfoldable pub prefilter : F → F → F × Explanation F
  prefilter avg_ent avg_len =
      if lt (lit 350) avg_ent && lt (lit 1500) avg_len
      then (lit 70, high_entropy_query avg_ent avg_len)
      else (lit 0, empty)

  unfoldable pub gbt_verdict :
      F × Explanation F → Features F → Option (Row F) → Option (Prediction F)
  unfolding row_score
  gbt_verdict filtered used none = none
  gbt_verdict (score, explanation) used (some row) = some (
      if lt (lit 50) (row_score row)
      then outcome (max_f fl score (row_score row)) used (gbt_flagged (row_score row) explanation)
      else outcome score used explanation)

  abbrev pub avg_len : Features F → F
  avg_len = feature "avg_query_length" (lit 0)

  abbrev pub avg_ent : Features F → F
  avg_ent = feature "avg_query_entropy" (lit 0)

  unfoldable pub dga_used : Features F → Features F
  dga_used v =
      ("avg_query_length", avg_len v)
      ∷ ("avg_query_entropy", avg_ent v)
      ∷ ("nxdomain_rate", feature "nxdomain_rate" (lit 0) v)
      ∷ []

  unfoldable pub dga_ml : F × Explanation F → Option (Model F) → Features F → Option (Prediction F)
  unfolding gbt_verdict first_row as_row dga_used
  dga_ml (score, explanation) none v = some (outcome score (dga_used v) explanation)
  dga_ml (score, explanation) (some (outlier_model labels)) v =
      some (outcome score (dga_used v) explanation)
  dga_ml filtered (some (classifier proba)) v =
      gbt_verdict filtered (dga_used v) (first_row (proba (as_row (dga_used v) ∷ [])))

  unfoldable pub dga_predict : Option (Model F) → Features F → Option (Prediction F)
  unfolding prefilter dga_ml
  dga_predict model v =
      if is_zero fl (avg_len v)
      then some (outcome (lit 0) (dga_used v) empty)
      else dga_ml (prefilter (avg_ent v) (avg_len v)) model v

  -- models/exfiltration_detector.py and models/recon_scan_detector.py: an isolation forest's answer
  unfoldable pub forest_verdict : Features F → Explanation F → Option Label → Option (Prediction F)
  forest_verdict used anomaly none = none
  forest_verdict used anomaly (some inlier) = some (outcome (lit 0) used empty)
  forest_verdict used anomaly (some outlier) =
      some (outcome (max_f fl (lit 0) (lit 75)) used anomaly)

  unfoldable pub forest_ml :
      Option (List (List F) → List Label) → Features F → Explanation F → Option (Prediction F)
  unfolding forest_verdict first_row as_row
  forest_ml none used anomaly = some (outcome (lit 0) used empty)
  forest_ml (some labels) used anomaly =
      forest_verdict used anomaly (first_row (labels (as_row used ∷ [])))

  abbrev out_in_ratio : Features F → F
  out_in_ratio = feature "outbound_inbound_ratio" (lit 0)

  abbrev out_b : Features F → F
  out_b = feature "outbound_bytes_ewma" (lit 0)

  abbrev in_b : Features F → F
  in_b = feature "inbound_bytes_ewma" (lit 0)

  unfoldable pub exfiltration_used : Features F → Features F
  exfiltration_used v =
      ("outbound_inbound_ratio", out_in_ratio v)
      ∷ ("outbound_bytes_ewma", out_b v)
      ∷ ("inbound_bytes_ewma", in_b v)
      ∷ []

  unfoldable pub exfiltration_predict :
      Option (List (List F) → List Label) → Features F → Option (Prediction F)
  unfolding forest_ml exfiltration_used
  exfiltration_predict model v =
      if is_zero fl (out_b v) && is_zero fl (in_b v)
      then some (outcome (lit 0) (exfiltration_used v) empty)
      else if lt (lit 1000) (out_in_ratio v) && lt (lit 500000) (out_b v)
      then some (outcome (lit 85) (exfiltration_used v) (exfiltration_risk (out_in_ratio v)))
      else forest_ml model (exfiltration_used v) exfiltration_anomaly

  abbrev pub syn_only_ratio : Features F → F
  syn_only_ratio = feature "syn_only_ratio" (lit 0)

  abbrev scan_activity : Features F → F
  scan_activity = feature "scan_activity_score" (lit 0)

  unfoldable pub recon_used : Features F → Features F
  recon_used v =
      ("syn_only_ratio", syn_only_ratio v) ∷ ("scan_activity_score", scan_activity v) ∷ []

  unfoldable pub recon_predict :
      Option (List (List F) → List Label) → Features F → Option (Prediction F)
  unfolding forest_ml recon_used
  recon_predict model v =
      if is_zero fl (scan_activity v)
      then some (outcome (lit 0) (recon_used v) empty)
      else if lt (lit 90) (syn_only_ratio v) && lt (lit 5000) (scan_activity v)
      then some
          (outcome (lit 90) (recon_used v) (syn_only_scan (syn_only_ratio v) (scan_activity v)))
      else forest_ml model (recon_used v) scan_anomaly

  -- models/dns_exfil_detector.py without a model: `_heuristic_predict`
  unfoldable pub heuristic_predict : Features F → Prediction F
  heuristic_predict v =
      let ent = feature "txt_cname_avg_entropy" (lit 0) v in
      let len = feature "txt_cname_avg_len" (lit 0) v in
      let rate = feature "txt_cname_rate" (lit 0) v in
      if lt (lit 450) ent && lt (lit 4000) len && lt (lit 500) rate
      then outcome (lit 85) v (dns_heuristic ent len rate)
      else outcome (lit 0) v empty

  -- From `prob` on; `none` is an exception in the `try` block, which falls back to the heuristic.
  unfoldable pub dns_verdict : Features F → Option F → Prediction F
  unfolding heuristic_predict
  dns_verdict v none = heuristic_predict v
  dns_verdict v (some prob) =
      if lt (lit 60) prob
      then outcome prob v (
          dns_tunnel (feature "txt_cname_avg_entropy" (lit 0) v)
            (feature "txt_cname_avg_len" (lit 0) v))
      else outcome prob v empty

  abbrev pub txt_cname_rate : Features F → F
  txt_cname_rate = feature "txt_cname_rate" (lit 0)

  abbrev pub dns_row : Features F → List F
  dns_row v =
      single (txt_cname_rate v)
      ∷ single (feature "txt_cname_avg_len" (lit 0) v)
      ∷ single (feature "txt_cname_avg_entropy" (lit 0) v)
      ∷ []

  -- `probability` is `decision_function` and the normalisation of its value.
  unfoldable pub dns_exfil_predict : Option (List (List F) → Option F) → Features F → Prediction F
  unfolding dns_verdict
  dns_exfil_predict none v = heuristic_predict v
  dns_exfil_predict (some probability) v =
      if is_zero fl (txt_cname_rate v)
      then outcome (lit 0) v empty
      else dns_verdict v (probability (dns_row v ∷ []))
