-- ===== src/Alerting/Normalizer.antt =====
-- AlertNormalizer of alerting/normalizer.py. The loaded calibrators and `str.upper` are parameters.
pub mod Ranges
use sih.Prelude.{[], List, some, none, Option, not, String, ℕ, if◌then◌else◌}
use sih.Alerting.Schema.{low, medium, high, AlertRecord, critical, Severity, FlowId}
use sih.Floats.{min_f, max_f, Floats}
use sih.Dict.{lookup}
use sih.Detectors.{Features}
use sih.Prelude.Eq.{string_eq}

-- What the code reads of the dictionary `flow_info`; `none` is a missing key.
pub record FlowInfo : Type 0 where
  pub src_ip : Option String
  pub dst_ip : Option String
  pub src_port : Option ℕ
  pub dst_port : Option ℕ
  pub protocol : Option String

abbrev get_text : String → Option String → String
get_text default none = default
get_text default (some text) = text

abbrev flow_id_of : FlowInfo → FlowId
flow_id_of info = record {
  src_ip = get_text "" info.src_ip;
  dst_ip = get_text "" info.dst_ip;
  src_port = info.src_port;
  dst_port = info.dst_port;
  protocol = get_text "UNKNOWN" info.protocol;
}

module _ (fl : Floats) where
  open fl use {F, lt, lit}

  unfoldable pub get_severity : F → Severity
  get_severity confidence =
      if not (lt confidence (lit 90))
      then critical
      else if not (lt confidence (lit 75))
      then high
      else if not (lt confidence (lit 50))
      then medium
      else low

  -- `float(calibrator.predict([raw_score])[0])`, by detector; `none` is an exception.
  abbrev pub Calibrators : Type 0
  Calibrators = List (String × (F → Option F))

  abbrev or_raw : F → Option F → F
  or_raw raw none = raw
  or_raw raw (some a) = a

  -- `confidence` before it is bounded
  unfoldable pub calibrated : Calibrators → String → F → F
  unfolding lookup
  calibrated calibrators detector raw = elim (lookup detector calibrators) [
    | none ↦ raw
    | some predict ↦ or_raw raw (predict raw)
  ]

  unfoldable pub clamped : F → F
  clamped a = max_f fl (lit 0) (min_f fl (lit 100) a)

  abbrev confidence_of : Calibrators → String → F → F
  unfolding calibrated clamped
  confidence_of calibrators detector raw = clamped (calibrated calibrators detector raw)

  -- `alert_id` is the value of the schema's default factory.
  unfoldable pub normalize :
      {X : Type 0}
      → (String → String)
      → Calibrators
      → (alert_id : String) → (detector : String) → (raw_score : F) → Features F
      → X
      → FlowInfo
      → (timestamp : ℕ) → (window_start window_end : Option ℕ) → AlertRecord F X
  unfolding get_severity calibrated clamped
  normalize upper calibrators alert_id detector raw values explanation info timestamp start end =
      record {
        alert_id = alert_id;
        timestamp = timestamp;
        detector = detector;
        flow_id = flow_id_of info;
        threat_class = upper detector;
        severity = get_severity (confidence_of calibrators detector raw);
        confidence_score = confidence_of calibrators detector raw;
        evidence = record {
          features = values;
          explanation = explanation;
          window_start = start;
          window_end = end;
        };
        related_alert_ids = [];
      }
