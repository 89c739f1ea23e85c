-- ===== src/Detectors/Tests.antt =====
-- The detectors at concrete features, with floats that are hundredths.
use sih.Prelude.{
  map, ◌∷◌, [], List, some, none, Option, false, true, refl, ◌≡◌, ◌-◌, ℕ, if◌then◌else◌, ltb,
}
use sih.Detectors.Rules.{
  as_row, heuristic_predict, dns_verdict, recon_used, forest_verdict, forest_ml, exfiltration_used,
  dga_used, gbt_verdict, prefilter, dga_ml, beaconing_used, svm_verdict, beaconing_ml,
  recon_predict, beaconing_predict, dga_predict, exfiltration_predict, dns_exfil_predict,
}
use sih.Floats.{hundredths, Floats}
use sih.Detectors.{
  row_score, first_row, high_entropy_query, outlier, classifier, svm_flagged, lgbm_flagged, inlier,
  exfiltration_anomaly, syn_only_scan, gbt_flagged, Row, Prediction, is_explained,
  base_predict_batch, Model, Features, Label,
}
use sih.Detectors.Ddos.{
  ddos_features_used, labelled, classified, predict_ml, predict_queued, fill, queue, triage,
  is_spoofed, is_quiet, ddos_predict, ddos_predict_batch,
}
use sih.Dict.{lookup}
use sih.Detectors.Rules.Explained.{
  dga-IsMatched, beaconing-IsMatched, ddos-IsMatched, recon-IsMatched,
}
use sih.Detectors.Ddos.Batch.{ddos_predict_batch-map}

abbrev fl : Floats
fl = hundredths

-- Row-wise models: a probability that is the SYN ratio, and a forest that flags a ratio above 5.
abbrev proba_of : List ℕ → Row ℕ
proba_of [] = (100, 0 ∷ [])
proba_of (a ∷ row) = (100 - a, a ∷ [])

abbrev label_of : List ℕ → Label
label_of [] = inlier
label_of (a ∷ row) = if ltb 500 a then outlier else inlier

abbrev classifier_model : Model ℕ
classifier_model = classifier (map proba_of)

abbrev forest : List (List ℕ) → List Label
forest = map label_of

-- Quiet, a SYN flood, an amplification, spoofed sources, and two vectors for the model.
abbrev vectors : List (Features ℕ)
vectors =
    (("dst_pkt_ewma", 100) ∷ [])
    ∷ (("syn_synack_ratio", 1200) ∷ [])
    ∷ (("dst_pkt_ewma", 300) ∷ ("syn_synack_ratio", 60) ∷ [])
    ∷ (("amp_byte_ratio", 1500) ∷ [])
    ∷ (("src_ip_entropy", 400) ∷ ("dst_pkt_ewma", 600) ∷ [])
    ∷ (("dst_pkt_ewma", 300) ∷ ("syn_synack_ratio", 40) ∷ [])
    ∷ []

program : Unit {0}
unfolding lookup is_quiet is_spoofed ddos_predict ddos_predict_batch triage queue fill
    predict_queued predict_ml classified labelled beaconing_predict beaconing_ml svm_verdict
    beaconing_used dga_predict dga_ml prefilter gbt_verdict dga_used exfiltration_predict
    exfiltration_used forest_ml forest_verdict recon_predict recon_used dns_exfil_predict
    dns_verdict heuristic_predict as_row first_row row_score ddos_features_used base_predict_batch
program = tt

scores : Option (List (Prediction ℕ)) → List ℕ
scores none = []
scores (some ps) = map (λ p. p.score) ps

-- The two that wait for the model get its answers, in their places.
six_scores :
    scores (base_predict_batch (ddos_predict fl (some classifier_model)) vectors)
    ≡ 0 ∷ 95 ∷ 60 ∷ 98 ∷ 92 ∷ 40 ∷ []
unfolding program scores
six_scores = refl

ddos_predict_batch-map_example :
    ddos_predict_batch fl (some classifier_model) vectors
    ≡ some (map (ddos_predict fl (some classifier_model)) vectors)
ddos_predict_batch-map_example =
    ddos_predict_batch-map fl classifier_model vectors (proba_of, λ rows. refl)

abbrev syn_flood_vector : Features ℕ
syn_flood_vector = ("dst_pkt_ewma", 300) ∷ ("syn_synack_ratio", 60) ∷ []

abbrev flooded : Prediction ℕ
flooded = record {
  score = 60;
  features_used =
      ("syn_synack_ratio", 60)
      ∷ ("dst_pkt_ewma", 300)
      ∷ ("amp_byte_ratio", 0)
      ∷ ("src_ip_entropy", 0)
      ∷ [];
  explanation = lgbm_flagged 60;
}

ddos_flooded : ddos_predict fl (some classifier_model) syn_flood_vector ≡ some flooded
unfolding program
ddos_flooded = refl

ddos-IsMatched_example : is_explained flooded.explanation ≡ ltb 50 flooded.score
ddos-IsMatched_example =
    ddos-IsMatched fl (some classifier_model) syn_flood_vector flooded ddos_flooded

abbrev beacon_vector : Features ℕ
beacon_vector = ("iat_cv", 30) ∷ ("mean_iat", 6000) ∷ []

abbrev svm : List (List ℕ) → List Label
svm = map (λ _. outlier)

abbrev beacon : Prediction ℕ
beacon = record {
  score = 85;
  features_used = ("iat_cv", 30) ∷ ("mean_iat", 6000) ∷ ("dst_fan_in", 0) ∷ [];
  explanation = svm_flagged 30;
}

beacon_found : beaconing_predict fl (some svm) beacon_vector ≡ some beacon
unfolding program
beacon_found = refl

beaconing-IsMatched_example : is_explained beacon.explanation ≡ ltb 50 beacon.score
beaconing-IsMatched_example = beaconing-IsMatched fl (some svm) beacon_vector beacon beacon_found

abbrev dga_vector : Features ℕ
dga_vector = ("avg_query_length", 2000) ∷ ("avg_query_entropy", 400) ∷ []

-- The row of the DGA model starts with the length.
abbrev tree_of : List ℕ → Row ℕ
tree_of row = (10, 90 ∷ [])

abbrev dga_alarm : Prediction ℕ
dga_alarm = record {
  score = 90;
  features_used =
      ("avg_query_length", 2000) ∷ ("avg_query_entropy", 400) ∷ ("nxdomain_rate", 0) ∷ [];
  explanation = gbt_flagged 90 (high_entropy_query 400 2000);
}

dga_found : dga_predict fl (some (classifier (map tree_of))) dga_vector ≡ some dga_alarm
unfolding program
dga_found = refl

dga-IsMatched_example : is_explained dga_alarm.explanation ≡ ltb 50 dga_alarm.score
dga-IsMatched_example =
    dga-IsMatched fl (some (classifier (map tree_of))) dga_vector dga_alarm dga_found

abbrev exfiltration_vector : Features ℕ
exfiltration_vector = ("outbound_inbound_ratio", 600) ∷ ("outbound_bytes_ewma", 700) ∷ []

abbrev leak : Prediction ℕ
leak = record {
  score = 75;
  features_used =
      ("outbound_inbound_ratio", 600)
      ∷ ("outbound_bytes_ewma", 700)
      ∷ ("inbound_bytes_ewma", 0)
      ∷ [];
  explanation = exfiltration_anomaly;
}

leak_found : exfiltration_predict fl (some forest) exfiltration_vector ≡ some leak
unfolding program
leak_found = refl

abbrev scan_vector : Features ℕ
scan_vector = ("syn_only_ratio", 95) ∷ ("scan_activity_score", 6000) ∷ []

abbrev scan : Prediction ℕ
scan = record {
  score = 90;
  features_used = ("syn_only_ratio", 95) ∷ ("scan_activity_score", 6000) ∷ [];
  explanation = syn_only_scan 95 6000;
}

scan_found : recon_predict fl none scan_vector ≡ some scan
unfolding program
scan_found = refl

recon-IsMatched_example : is_explained scan.explanation ≡ ltb 50 scan.score
recon-IsMatched_example = recon-IsMatched fl none scan_vector scan scan_found

abbrev tunnel_vector : Features ℕ
tunnel_vector = ("txt_cname_rate", 600) ∷ []

abbrev tunnel_model : Option (List (List ℕ) → Option ℕ)
tunnel_model = some (λ rows. some 70)

tunnel_found : is_explained (dns_exfil_predict fl tunnel_model tunnel_vector).explanation ≡ true
unfolding program
tunnel_found = refl

-- A score between 0.5 and 0.6 is not explained, so the converse fails.
unexplained :
    is_explained (dns_exfil_predict fl (some (λ rows. some 55)) tunnel_vector).explanation ≡ false
unfolding program
unexplained = refl
