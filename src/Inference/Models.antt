-- ===== src/Inference/Models.antt =====
-- extract_features_for_model and ONNXModelManager.predict_batch of inference/worker.py. A session of
-- onnxruntime is a parameter.
use sih.Floats.{Floats}
use sih.Prelude.{
  map, ◌∷◌, [], List, some, none, Option, ◌||◌, false, Bool, String, ℕ, replicate, length,
  if◌then◌else◌,
}
use sih.Dict.{lookup}
use sih.Prelude.Eq.{◌==◌, string_eq}

-- What the worker reads of a record of raw features: the numbers by key, and the rest with `none`
-- for a missing key. A record that has an explicit null under one of these keys is left out: the code
-- takes the null in place of the default.
pub record RawRecord (F : Type 0) : Type 0 where
  pub numbers : List (String × F)
  pub is_port_scan : Option Bool
  pub src_ip : Option String
  pub dst_ip : Option String
  pub src_port : Option ℕ
  pub dst_port : Option ℕ
  pub protocol : Option String
  pub timestamp : Option ℕ

-- What a session returns: the probabilities of each row, or for each row whether its label is -1, or
-- an exception.
pub data Output (F : Type 0) : Type 0 where
  probabilities : List (List F) → Output F
  labels : List Bool → Output F
  raises : Output F

module _ (fl : Floats) where
  open fl use {F, lt, lit}

  abbrev pub Session : Type 0
  Session = List (List F) → Output F

  -- record.get(key, 0)
  unfoldable pub get_number : String → RawRecord F → F
  unfolding lookup
  get_number key r = elim (lookup key r.numbers) [ none ↦ lit 0 | some a ↦ a ]

  abbrev flag : Option Bool → F
  flag none = lit 0
  flag (some b) = if b then lit 100 else lit 0

  unfoldable pub extract_features_for_model : String → RawRecord F → Option (List F)
  unfolding get_number
  extract_features_for_model model_name r =
      if model_name == "ddos"
      then some (
          get_number "pkt_rate_1s" r
          ∷ get_number "byte_rate_1s" r
          ∷ get_number "syn_rate_1s" r
          ∷ get_number "unique_dst_ports_1s" r
          ∷ get_number "ip_len" r
          ∷ get_number "tcp_flags" r
          ∷ get_number "flow_pkt_count" r
          ∷ get_number "flow_byte_count" r
          ∷ [])
      else if model_name == "recon"
      then some (
          get_number "unique_ports_scanned" r
          ∷ get_number "pkt_rate_1s" r
          ∷ flag r.is_port_scan
          ∷ get_number "flow_duration" r
          ∷ get_number "tcp_flags" r
          ∷ [])
      else if model_name == "beaconing" || model_name == "exfil" || model_name == "encrypted"
      then some (
          get_number "flow_duration" r
          ∷ get_number "flow_pkt_count" r
          ∷ get_number "flow_byte_count" r
          ∷ get_number "byte_rate_1s" r
          ∷ get_number "pkt_rate_1s" r
          ∷ [])
      else none

  -- `p[1] if len(p) > 1 else p[0]`; an empty row is an IndexError
  abbrev pub anomaly_class : List F → Option F
  anomaly_class [] = none
  anomaly_class (a ∷ []) = some a
  anomaly_class (a ∷ b ∷ p) = some b

  abbrev pub with_flag : F → F × Bool
  with_flag a = (a, lt (lit 50) a)

  abbrev cons_result : Option F → Option (List (F × Bool)) → Option (List (F × Bool))
  cons_result none rest = none
  cons_result (some a) none = none
  cons_result (some a) (some results) = some (with_flag a ∷ results)

  unfoldable pub class_results : List (List F) → Option (List (F × Bool))
  class_results [] = some []
  class_results (p ∷ probs) = cons_result (anomaly_class p) (class_results probs)

  abbrev pub of_label : Bool → F × Bool
  of_label b = (if b then lit 100 else lit 0, b)

  unfoldable pub results_of : Output F → Option (List (F × Bool))
  unfolding class_results
  results_of (probabilities probs) = class_results probs
  results_of (labels rows) = some (map of_label rows)
  results_of raises = none

  -- No session, or an exception: no row is an anomaly.
  abbrev pub no_anomalies : List (List F) → List (F × Bool)
  no_anomalies batch = replicate (length batch) (lit 0, false)

  abbrev or_none : List (List F) → Option (List (F × Bool)) → List (F × Bool)
  or_none batch none = no_anomalies batch
  or_none batch (some results) = results

  unfoldable pub predict_batch : List (String × Session) → String → List (List F) → List (F × Bool)
  unfolding lookup results_of
  predict_batch sessions model_name batch = elim (lookup model_name sessions) [
    | none ↦ no_anomalies batch
    | some session ↦ or_none batch (results_of (session batch))
  ]
