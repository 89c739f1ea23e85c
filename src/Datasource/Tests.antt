-- ===== src/Datasource/Tests.antt =====
-- The replay over two families.
use sih.Datasource.Records.{get_or, FlowRecord}
use sih.Prelude.{arith, map, ◌∷◌, [], List, some, none, Option, refl, ◌≡◌, String, ◌≤◌, ◌/◌, ◌*◌, ℕ}
use sih.Datasource.Replay.{
  extend_until, pool_of, sample, sample_each, unlisted, sample_listed, group, weights_of,
  filter_by_weights, filter_by_scenario, drain_records,
}
use sih.Datasource.Replay.Samples.{filter_by_scenario-IsSelected, IsSelected}
use sih.Dict.{put, lookup}
use sih.Datasource.Labels.{record_of, add_entry, LabelEntry, load_json_labels, FlowEntry}

abbrev labeled : String → ℕ → FlowRecord ℕ
labeled family time = record {
  timestamp = time;
  src_ip = "a";
  dst_ip = "b";
  src_port = 1;
  dst_port = 2;
  protocol = "TCP";
  attack_family = family;
  severity = "LOW";
  confidence = 75;
  generator = "nfstream";
  features = ("rate", 3) ∷ [];
  explanation = "";
  pkt_count = 4;
  byte_count = 5;
  duration_s = 6;
}

abbrev loaded : List (FlowRecord ℕ)
loaded = labeled "PORT_SCAN" 1 ∷ labeled "RECON" 2 ∷ labeled "DGA" 3 ∷ labeled "PORT_SCAN" 4 ∷ []

abbrev hundredths_of : ℕ → ℕ → ℕ
hundredths_of total w = total * w / 100

abbrev IsEarly : FlowRecord ℕ → Type 0
IsEarly r = r.timestamp ≤ 4

filter_by_scenario-IsSelected_example :
    IsSelected IsEarly
      (filter_by_scenario (λ text. text) hundredths_of (λ xs. xs) loaded "recon_storm")
filter_by_scenario-IsSelected_example =
    filter_by_scenario-IsSelected IsEarly (λ text. text) hundredths_of (λ xs. xs) loaded
      "recon_storm" (λ xs h. h) (ground arith, (ground arith, (ground arith, (ground arith, tt))))

times : Option (List (FlowRecord ℕ)) → List ℕ
times none = []
times (some records) = map (λ r. r.timestamp) records

-- Two port scans, one reconnaissance, and one of the family that is not listed.
selected :
    times (filter_by_scenario (λ text. text) hundredths_of (λ xs. xs) loaded "recon_storm")
    ≡ 1 ∷ 4 ∷ 2 ∷ 3 ∷ []
unfolding times filter_by_scenario filter_by_weights weights_of group sample_listed unlisted
    sample_each sample pool_of lookup put extend_until
selected = refl

read : map (λ r. r.timestamp) (drain_records (λ text. text) 1 loaded) ≡ 2 ∷ 3 ∷ 4 ∷ []
unfolding drain_records
read = refl

abbrev no_flow : FlowEntry
no_flow = record { src_ip = none; dst_ip = none; src_port = none; dst_port = none; protocol = none }

abbrev entry : Option String → Option String → LabelEntry ℕ
entry family label = record {
  attack_family = family;
  label = label;
  timestamp = some 9;
  flow = no_flow;
  own = record no_flow { src_ip = some "c" };
  confidence = none;
  generator = none;
  pkt_count = none;
  byte_count = none;
  duration_s = none;
  features = [];
  explanation = none;
  text_length = 40;
}

-- The benign entry is left out, and the one that raises ends the file.
labels_read :
    map {B = String × String × String × ℕ}
      (λ r. (r.attack_family, r.severity, r.src_ip, r.confidence))
      (load_json_labels
        (λ text. text)
        50
        (λ family. family)
        (some (entry (some "DGA") none)
          ∷ some (entry (some "BENIGN") none)
          ∷ some (entry none (some "ODD"))
          ∷ none
          ∷ some (entry (some "RECON") none)
          ∷ []))
    ≡ ("DGA", "HIGH", "c", 87) ∷ ("ODD", "MEDIUM", "c", 80) ∷ []
unfolding load_json_labels add_entry record_of get_or lookup
labels_read = refl
