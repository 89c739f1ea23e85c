-- ===== src/Datasource/Records.antt =====
-- FlowRecord of datasource/base.py and its alert. A confidence is in hundredths, `A` is the type of a
-- feature, and a time or a duration is a number of milliseconds.
use sih.Dict.{put, lookup}
use sih.Prelude.Eq.{◌==◌, string_eq}
use sih.Prelude.{◌∷◌, [], List, some, none, String, ℕ, if◌then◌else◌}

pub record FlowRecord (A : Type 0) : Type 0 where
  pub timestamp : ℕ
  pub src_ip : String
  pub dst_ip : String
  pub src_port : ℕ
  pub dst_port : ℕ
  pub protocol : String
  pub attack_family : String
  pub severity : String
  pub confidence : ℕ
  pub generator : String
  pub features : List (String × A)
  pub explanation : String
  pub pkt_count : ℕ
  pub byte_count : ℕ
  pub duration_s : ℕ

abbrev detector_map : List (String × String)
detector_map =
    ("SYN_FLOOD", "ddos")
    ∷ ("UDP_FLOOD", "ddos")
    ∷ ("UDP_AMPLIFICATION", "ddos")
    ∷ ("SLOWLORIS", "ddos")
    ∷ ("DNS_TUNNEL", "dns_exfil")
    ∷ ("DNS_EXFIL", "dns_exfil")
    ∷ ("DGA", "dga")
    ∷ ("C2_BEACON", "beaconing")
    ∷ ("PORT_SCAN", "recon")
    ∷ ("RECON", "recon")
    ∷ ("EXFIL", "exfil")
    ∷ ("BENIGN", "benign")
    ∷ []

abbrev threat_class_map : List (String × String)
threat_class_map =
    ("SYN_FLOOD", "SYN Flood")
    ∷ ("UDP_FLOOD", "UDP Flood")
    ∷ ("UDP_AMPLIFICATION", "UDP Amplification")
    ∷ ("SLOWLORIS", "Slow HTTP Exhaustion")
    ∷ ("DNS_TUNNEL", "DNS Tunneling")
    ∷ ("DNS_EXFIL", "DNS Exfiltration")
    ∷ ("DGA", "DGA Beaconing")
    ∷ ("C2_BEACON", "C2 Beaconing")
    ∷ ("PORT_SCAN", "Port Scan")
    ∷ ("RECON", "Reconnaissance")
    ∷ ("EXFIL", "Data Exfiltration")
    ∷ ("BENIGN", "Benign")
    ∷ []

-- d.get(key, default)
unfoldable pub get_or : String → String → List (String × String) → String
unfolding lookup
get_or default key d = elim (lookup key d) [ none ↦ default | some text ↦ text ]

-- The dictionary that stands for an alert.
pub record AlertDict (A : Type 0) : Type 0 where
  pub alert_id : String
  pub timestamp : ℕ
  pub detector : String
  pub threat_class : String
  pub severity : String
  pub confidence_score : ℕ
  pub src_ip : String
  pub dst_ip : String
  pub src_port : ℕ
  pub dst_port : ℕ
  pub protocol : String
  pub features : List (String × A)
  pub explanation : String
  pub related_alert_ids : List String
  pub source_name : String
  pub generator : String

module _ {A : Type 0} where
  -- {**features, ...}
  unfoldable pub put_all : List (String × A) → List (String × A) → List (String × A)
  unfolding put
  put_all [] d = d
  put_all ((key, a) ∷ items) d = put_all items (put key a d)

  -- f"Dataset replay: {family} detected by {generator}", for an explanation that is empty
  abbrev explanation_of : FlowRecord A → String
  explanation_of r =
      if r.explanation == ""
      then Prim.Native.String.◌++◌ "Dataset replay: " (
          Prim.Native.String.◌++◌ r.attack_family
            (Prim.Native.String.◌++◌ " detected by " r.generator))
      else r.explanation

  -- `upper` is str.upper, `alert_id` the uuid, and `counts` the three features of the record's own
  -- counters, with the duration rounded.
  unfoldable pub to_alert_dict :
      (upper : String → String)
      → (alert_id : String) → (counts : FlowRecord A → List (String × A)) → FlowRecord A
      → AlertDict A
  unfolding get_or put_all
  to_alert_dict upper alert_id counts r = record {
    alert_id = alert_id;
    timestamp = r.timestamp;
    detector = get_or "unknown" (upper r.attack_family) detector_map;
    threat_class = get_or r.attack_family (upper r.attack_family) threat_class_map;
    severity = r.severity;
    confidence_score = r.confidence;
    src_ip = r.src_ip;
    dst_ip = r.dst_ip;
    src_port = r.src_port;
    dst_port = r.dst_port;
    protocol = r.protocol;
    features = put_all (counts r) r.features;
    explanation = explanation_of r;
    related_alert_ids = [];
    source_name = "dataset_replay";
    generator = r.generator;
  }
