-- ===== src/Detectors/Ddos.antt =====
-- DDoSDetector of models/ddos_detector.py: `predict` and its own `predict_batch`.
pub mod Batch
use sih.Floats.{Floats}
use sih.Detectors.{
  Label, Explanation, empty, syn_flood, amplification, spoofed_flood, lgbm_flagged,
  volumetric_anomaly, Features, feature, Prediction, first_row, Row, row_score, Model, classifier,
  outlier_model, outlier, inlier,
}
use sih.Prelude.{
  zip, ◌∷◌, [], List, some, none, Option, ◌||◌, ◌&&◌, Bool, ◌<◌, ◌+◌, ℕ, set, get_elem?,
  if◌then◌else◌,
}

module _ (fl : Floats) where
  open fl use {F, lt, lit, single}

  abbrev syn_ratio : Features F → F
  syn_ratio = feature "syn_synack_ratio" (lit 0)

  abbrev pkt_ewma : Features F → F
  pkt_ewma = feature "dst_pkt_ewma" (lit 0)

  abbrev amp_ratio : Features F → F
  amp_ratio = feature "amp_byte_ratio" (lit 0)

  abbrev entropy : Features F → F
  entropy = feature "src_ip_entropy" (lit 0)

  abbrev byte_ewma : Features F → F
  byte_ewma = feature "dst_byte_ewma" (lit 0)

  unfoldable pub ddos_features_used : Features F → Features F
  ddos_features_used v =
      ("syn_synack_ratio", syn_ratio v)
      ∷ ("dst_pkt_ewma", pkt_ewma v)
      ∷ ("amp_byte_ratio", amp_ratio v)
      ∷ ("src_ip_entropy", entropy v)
      ∷ []

  -- `pkt_ewma < 2.0 and syn_ratio < 2.0 and amp_ratio < 5.0 and entropy < 3.0`
  unfoldable pub is_quiet : Features F → Bool
  is_quiet v =
      lt (pkt_ewma v) (lit 200)
      && lt (syn_ratio v) (lit 200)
      && lt (amp_ratio v) (lit 500)
      && lt (entropy v) (lit 300)

  -- `entropy > 3.0 and (pkt_ewma > 5.0 or byte_ewma > 1000.0)`
  unfoldable pub is_spoofed : Features F → Bool
  is_spoofed v =
      lt (lit 300) (entropy v) && (lt (lit 500) (pkt_ewma v) || lt (lit 100000) (byte_ewma v))

  abbrev pub result : Features F → F → Explanation F → Prediction F
  result v score explanation = record {
    score = score;
    features_used = ddos_features_used v;
    explanation = explanation;
  }

  -- `X` of one row, as float32
  abbrev model_row : Features F → List F
  model_row v = single (syn_ratio v) ∷ single (pkt_ewma v) ∷ []

  -- The end of `predict` with a model, from the score and the answer of the model.
  unfoldable pub classified : Features F → F → Prediction F
  classified v score = result v score (if lt (lit 50) score then lgbm_flagged score else empty)

  unfoldable pub labelled : Features F → Label → Prediction F
  labelled v outlier = result v (lit 80) volumetric_anomaly
  labelled v inlier = result v (lit 0) empty

  -- Step 4 of `predict`; `none` is an IndexError at `[0]`.
  unfoldable pub predict_ml : Option (Model F) → Features F → Option (Prediction F)
  unfolding classified labelled row_score first_row
  predict_ml none v = some (result v (lit 0) empty)
  predict_ml (some (classifier proba)) v = elim (first_row (proba (model_row v ∷ []))) [
    | none ↦ none
    | some row ↦ some (classified v (row_score row))
  ]
  predict_ml (some (outlier_model labels)) v = elim (first_row (labels (model_row v ∷ []))) [
    | none ↦ none
    | some label ↦ some (labelled v label)
  ]

  unfoldable pub ddos_predict : Option (Model F) → Features F → Option (Prediction F)
  unfolding ddos_features_used is_quiet is_spoofed predict_ml
  ddos_predict model v =
      if is_quiet v
      then some (result v (lit 0) empty)
      else if lt (lit 1000) (syn_ratio v)
      then some (result v (lit 95) (syn_flood (syn_ratio v)))
      else if lt (lit 1000) (amp_ratio v)
      then some (result v (lit 98) (amplification (amp_ratio v)))
      else if is_spoofed v
      then some (result v (lit 92) (spoofed_flood (entropy v)))
      else predict_ml model v

  -- One round of the first loop of `predict_batch`: a result, or `none` for the placeholder of a
  -- vector that waits for the model.
  unfoldable pub triage : Option (Model F) → Features F → Option (Prediction F)
  unfolding ddos_features_used
  triage model v =
      if lt (pkt_ewma v) (lit 200)
        && lt (syn_ratio v) (lit 200)
        && lt (amp_ratio v) (lit 500)
        && lt (entropy v) (lit 300)
      then some (result v (lit 0) empty)
      else if lt (lit 1000) (syn_ratio v)
      then some (result v (lit 95) (syn_flood (syn_ratio v)))
      else if lt (lit 1000) (amp_ratio v)
      then some (result v (lit 98) (amplification (amp_ratio v)))
      else if lt (lit 300) (entropy v)
          && (lt (lit 500) (pkt_ewma v) || lt (lit 100000) (byte_ewma v))
      then some (result v (lit 92) (spoofed_flood (entropy v)))
      else (elim model [ none ↦ some (result v (lit 0) empty) | some _ ↦ none ])

  -- `results`, `ml_batch_indices` and `ml_batch_X` after the first loop, from the position `i` on
  pub record Queued : Type 0 where
    pub results : List (Option (Prediction F))
    pub indices : List ℕ
    pub rows : List (List F)

  abbrev queue_one : ℕ → Features F → Option (Prediction F) → Queued → Queued
  queue_one i v (some p) q = record q { results = some p ∷ q.results }
  queue_one i v none q = record {
    results = none ∷ q.results;
    indices = i ∷ q.indices;
    rows = model_row v ∷ q.rows;
  }

  unfoldable pub queue : Option (Model F) → ℕ → List (Features F) → Queued
  unfolding triage
  queue model i [] = record { results = []; indices = []; rows = [] }
  queue model i (v ∷ rest) = queue_one i v (triage model v) (queue model (i + 1) rest)

  -- The second loop: `results[idx] = …` for each index and answer of the model; `none` is an
  -- IndexError at `feature_vectors[idx]`.
  unfoldable pub fill :
      {A : Type 0}
      → (Features F → A → Prediction F)
      → List (Features F)
      → List (ℕ × A)
      → List (Option (Prediction F))
      → Option (List (Option (Prediction F)))
  fill make vectors [] results = some results
  fill make vectors ((i, answer) ∷ rest) results = elim (get_elem? vectors i) [
    | none ↦ none
    | some v ↦ fill make vectors rest (set results i (some (make v answer)))
  ]

  -- `if ml_batch_X and self.model`
  unfoldable pub predict_queued :
      Option (Model F) → List (Features F) → Queued → Option (List (Option (Prediction F)))
  unfolding fill classified labelled row_score
  predict_queued none vectors q = some q.results
  predict_queued (some model) vectors q = elim q.rows [
    | [] ↦ some q.results
    | x ∷ xs ↦ elim model [
      | classifier proba ↦
          fill (λ v row. classified v (row_score row)) vectors (zip q.indices (proba (x ∷ xs)))
            q.results
      | outlier_model labels ↦ fill labelled vectors (zip q.indices (labels (x ∷ xs))) q.results
    ]
  ]

  unfoldable pub ddos_predict_batch :
      Option (Model F) → List (Features F) → Option (List (Option (Prediction F)))
  unfolding queue predict_queued
  ddos_predict_batch model vectors = predict_queued model vectors (queue model 0 vectors)
