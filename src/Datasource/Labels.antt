-- ===== src/Datasource/Labels.antt =====
-- The two loaders of datasource/dataset_replay.py. The reading of JSON and CSV is the library's: an
-- entry has the values under its keys, `none` for a missing one, and an entry whose values do not
-- convert is `none`, an exception. `family_of` is str.upper and the replacement of the spaces.
use sih.Dict.{lookup}
use sih.Prelude.Eq.{◌==◌, string_eq}
use sih.Datasource.Records.{FlowRecord, get_or}
use sih.Prelude.{◌∷◌, [], List, some, none, Option, String, ℕ, if◌then◌else◌}

abbrev pub severity_map : List (String × String)
severity_map =
    ("BENIGN", "LOW")
    ∷ ("SYN_FLOOD", "CRITICAL")
    ∷ ("UDP_FLOOD", "HIGH")
    ∷ ("UDP_AMPLIFICATION", "CRITICAL")
    ∷ ("SLOWLORIS", "HIGH")
    ∷ ("DNS_TUNNEL", "CRITICAL")
    ∷ ("DNS_EXFIL", "HIGH")
    ∷ ("DGA", "HIGH")
    ∷ ("C2_BEACON", "CRITICAL")
    ∷ ("PORT_SCAN", "MEDIUM")
    ∷ ("RECON", "MEDIUM")
    ∷ ("EXFIL", "HIGH")
    ∷ []

abbrev pub confidence_map : List (String × ℕ)
confidence_map =
    ("BENIGN", 10)
    ∷ ("SYN_FLOOD", 97)
    ∷ ("UDP_FLOOD", 93)
    ∷ ("UDP_AMPLIFICATION", 98)
    ∷ ("SLOWLORIS", 88)
    ∷ ("DNS_TUNNEL", 95)
    ∷ ("DNS_EXFIL", 91)
    ∷ ("DGA", 87)
    ∷ ("C2_BEACON", 94)
    ∷ ("PORT_SCAN", 82)
    ∷ ("RECON", 79)
    ∷ ("EXFIL", 86)
    ∷ []

pub record FlowEntry : Type 0 where
  pub src_ip : Option String
  pub dst_ip : Option String
  pub src_port : Option ℕ
  pub dst_port : Option ℕ
  pub protocol : Option String

-- An entry, with its "flow", whose keys it may have itself, and the length of its text.
pub record LabelEntry (A : Type 0) : Type 0 where
  pub attack_family : Option String
  pub label : Option String
  pub timestamp : Option ℕ
  pub flow : FlowEntry
  pub own : FlowEntry
  pub confidence : Option ℕ
  pub generator : Option String
  pub pkt_count : Option ℕ
  pub byte_count : Option ℕ
  pub duration_s : Option ℕ
  pub features : List (String × A)
  pub explanation : Option String
  pub text_length : ℕ

-- A row of a CSV file, with its other columns and the values that they convert to.
pub record CsvRow (A : Type 0) : Type 0 where
  pub attack_family : Option String
  pub timestamp : Option ℕ
  pub flow : FlowEntry
  pub generator : Option String
  pub pkt_count : Option ℕ
  pub byte_count : Option ℕ
  pub duration_s : Option ℕ
  pub columns : List (String × A)

-- A value, or else a default.
abbrev pub given {ℓ} : {V : Type ℓ} → V → Option V → V
given default none = default
given default (some v) = v

-- A value, or else another, or else a default.
abbrev pub given2 {ℓ} : {V : Type ℓ} → V → Option V → Option V → V
given2 default none other = given default other
given2 default (some v) other = v

-- _CONFIDENCE_MAP.get(family, default)
abbrev pub confidence_or : ℕ → String → ℕ
unfolding lookup
confidence_or default family = given default (lookup family confidence_map)

module _ {A : Type 0} (family_of : String → String) (now : ℕ) (explained : String → String) where
  unfoldable pub record_of : LabelEntry A → FlowRecord A
  unfolding get_or confidence_or
  record_of entry =
      let family = family_of (given2 "BENIGN" entry.attack_family entry.label) in
      record {
        timestamp = given now entry.timestamp;
        src_ip = given2 "0.0.0.0" entry.flow.src_ip entry.own.src_ip;
        dst_ip = given2 "0.0.0.0" entry.flow.dst_ip entry.own.dst_ip;
        src_port = given2 0 entry.flow.src_port entry.own.src_port;
        dst_port = given2 0 entry.flow.dst_port entry.own.dst_port;
        protocol = given2 "TCP" entry.flow.protocol entry.own.protocol;
        attack_family = family;
        severity = get_or "MEDIUM" family severity_map;
        confidence = given (confidence_or 80 family) entry.confidence;
        generator = given "dataset" entry.generator;
        features = entry.features;
        explanation = given (explained family) entry.explanation;
        pkt_count = given 1 entry.pkt_count;
        byte_count = given entry.text_length entry.byte_count;
        duration_s = given 1 entry.duration_s;
      }

  -- A benign entry is left out.
  unfoldable pub add_entry : LabelEntry A → List (FlowRecord A) → List (FlowRecord A)
  unfolding record_of
  add_entry entry records =
      let made = record_of entry in
      if made.attack_family == "BENIGN" then records else made ∷ records

  -- The loop over the entries; an exception ends it, and what was read before is kept.
  unfoldable pub load_json_labels : List (Option (LabelEntry A)) → List (FlowRecord A)
  unfolding add_entry
  load_json_labels [] = []
  load_json_labels (none ∷ entries) = []
  load_json_labels (some entry ∷ entries) = add_entry entry (load_json_labels entries)

  unfoldable pub record_of_row : CsvRow A → FlowRecord A
  unfolding get_or confidence_or
  record_of_row row =
      let family = family_of (given "BENIGN" row.attack_family) in
      record {
        timestamp = given now row.timestamp;
        src_ip = given "0.0.0.0" row.flow.src_ip;
        dst_ip = given "0.0.0.0" row.flow.dst_ip;
        src_port = given 0 row.flow.src_port;
        dst_port = given 0 row.flow.dst_port;
        protocol = given "TCP" row.flow.protocol;
        attack_family = family;
        severity = get_or "LOW" family severity_map;
        confidence = confidence_or 75 family;
        generator = given "nfstream" row.generator;
        features = row.columns;
        explanation = explained family;
        pkt_count = given 0 row.pkt_count;
        byte_count = given 0 row.byte_count;
        duration_s = given 0 row.duration_s;
      }

  unfoldable pub load_csv : List (Option (CsvRow A)) → List (FlowRecord A)
  unfolding record_of_row
  load_csv [] = []
  load_csv (none ∷ rows) = []
  load_csv (some row ∷ rows) = record_of_row row ∷ load_csv rows
