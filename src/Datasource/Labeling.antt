-- ===== src/Datasource/Labeling.antt =====
-- _apply_labels, _pick_backend and extract_features of datasource/feature_extractor.py. The values of
-- an entry of the sidecar are as they convert; an entry that does not convert is an exception, as is a
-- file that cannot be read, and leaves the rows as they are.
pub mod Kept
pub mod Counted
mod Tests
use sih.Dict.{lookup, put}
use sih.Prelude.Eq.{◌==◌, nat_eq, string_eq, pair_eq}
use sih.Features.Numbers.{Numbers}
use sih.Prelude.{map, ◌∷◌, [], List, some, none, Option, ◌&&◌, not, Bool, String, ℕ, if◌then◌else◌}
use sih.Datasource.Extractor.Rows.{FlowRow, extract_scapy}
use sih.Datasource.Records.{get_or}
use sih.Datasource.Labels.{given, given2}
use sih.Datasource.Extractor.{IpPacket}

abbrev pub label_severities : List (String × String)
label_severities =
    ("BENIGN", "LOW")
    ∷ ("SYN_FLOOD", "CRITICAL")
    ∷ ("UDP_FLOOD", "HIGH")
    ∷ ("UDP_AMPLIFICATION", "CRITICAL")
    ∷ ("SLOWLORIS", "HIGH")
    ∷ ("DNS_TUNNEL", "CRITICAL")
    ∷ ("DNS_EXFIL", "HIGH")
    ∷ ("DGA", "HIGH")
    ∷ ("DGA_BEACON", "CRITICAL")
    ∷ ("C2_BEACON", "CRITICAL")
    ∷ ("PORT_SCAN", "MEDIUM")
    ∷ ("RECON", "MEDIUM")
    ∷ ("EXFIL", "HIGH")
    ∷ []

-- (src_ip, dst_ip, dst_port, protocol)
abbrev pub LabelKey : Type 0
LabelKey = (String × String) × (ℕ × String)

-- An entry with the key of its flow.
pub record Labeled : Type 0 where
  pub key : LabelKey
  pub attack_family : Option String
  pub label : Option String
  pub severity : Option String
  pub generator : Option String

-- The sidecar: its attack and mode, as the code normalises them, and its entries, `none` for one that does not
-- convert. A list has neither attack nor mode.
pub record Sidecar : Type 0 where
  pub attack_type : String
  pub generator_mode : String
  pub entries : List (Option Labeled)

abbrev pub row_key : {F : Type 0} → FlowRow F → LabelKey
row_key r = ((r.src_ip, r.dst_ip), (r.dst_port, r.protocol))

-- label_map[key] = entry, for every entry; `none` is the exception.
unfoldable pub label_map :
    List (Option Labeled) → List (LabelKey × Labeled) → Option (List (LabelKey × Labeled))
unfolding put
label_map [] labels = some labels
label_map (none ∷ entries) labels = none
label_map (some entry ∷ entries) labels = label_map entries (put entry.key entry labels)

module _ {F : Type 0} (family_of : String → String) (is_dga : String → Bool) where
  unfoldable pub label_row : Labeled → FlowRow F → FlowRow F
  unfolding get_or
  label_row entry r =
      let family = family_of (given2 "BENIGN" entry.attack_family entry.label) in
      record r {
        attack_family = family;
        severity = given (get_or "LOW" family label_severities) entry.severity;
        generator = given r.generator entry.generator;
      }

  -- The flows of a capture whose attack is named; `is_dga` is the test `"DGA" in attack_type`.
  unfoldable pub inherit_attack : Sidecar → FlowRow F → FlowRow F
  unfolding get_or
  inherit_attack side r =
      let norm_family = if is_dga side.attack_type then "C2_BEACON" else side.attack_type in
      if not (side.attack_type == "") && not (side.attack_type == "BENIGN")
      then record r {
        attack_family = norm_family;
        severity = get_or "HIGH" norm_family label_severities;
        generator = side.generator_mode;
      }
      else r

  unfoldable pub label_found : Sidecar → Option Labeled → FlowRow F → FlowRow F
  unfolding label_row inherit_attack
  label_found side none r = inherit_attack side r
  label_found side (some entry) r = label_row entry r

  unfoldable pub label_one : Sidecar → List (LabelKey × Labeled) → FlowRow F → FlowRow F
  unfolding label_found lookup
  label_one side labels r = label_found side (lookup (row_key r) labels) r

  -- The loop over the rows, which an exception of the loop over the entries does not reach.
  unfoldable pub label_rows :
      Sidecar → Option (List (LabelKey × Labeled)) → List (FlowRow F) → List (FlowRow F)
  unfolding label_one
  label_rows side none rows = rows
  label_rows side (some labels) rows = map (label_one side labels) rows

  -- `none` is a sidecar that cannot be read.
  unfoldable pub apply_labels : Option Sidecar → List (FlowRow F) → List (FlowRow F)
  unfolding label_rows label_map
  apply_labels none rows = rows
  apply_labels (some side) rows = label_rows side (label_map side.entries []) rows

-- `have_nfstream` says whether nfstream can be imported.
unfoldable pub pick_backend : (have_nfstream : Bool) → String → String
pick_backend have_nfstream preference =
    if preference == "nfstream"
    then (if have_nfstream then "nfstream" else "scapy")
    else if preference == "scapy"
    then "scapy"
    else if have_nfstream
    then "nfstream"
    else "scapy"

module _ (nu : Numbers) (round : ℕ → Numbers.F nu → Numbers.F nu) (family_of : String → String)
    (is_dga : String → Bool) where
  open nu use {F}

  -- `label_path` with what is read there, `none` where no path is given or no file exists.
  unfoldable pub extract_features :
      (have_nfstream : Bool)
      → (nfstream_rows : List (FlowRow F)) → (backend : String) → List (Option IpPacket)
      → (label_path : Option (Option Sidecar)) → List (FlowRow F)
  unfolding pick_backend extract_scapy apply_labels
  extract_features have_nfstream nfstream_rows backend packets label_path =
      let rows =
        if pick_backend have_nfstream backend == "nfstream"
        then nfstream_rows
        else extract_scapy nu round packets in
      elim label_path [ none ↦ rows | some side ↦ apply_labels family_of is_dga side rows ]
