-- ===== src/Datasource/Labeling/Tests.antt =====
-- A capture of two interleaved flows, and its labels.
use sih.Prelude.Eq.{nat_eq, string_eq, pair_eq}
use sih.Datasource.Extractor.{IpPacket, Key, tcp, udp}
use sih.Features.Numbers.{whole}
use sih.Prelude.{false, true, Bool, ◌≡◌, refl, Option, none, some, List, [], ◌∷◌, String, ℕ, map}
use sih.Datasource.Labeling.{
  label_rows, label_one, Sidecar, pick_backend, extract_features, apply_labels, Labeled,
}
use sih.Datasource.Labeling.Counted.{extract_features-CountsAll, CountsAll}
use sih.Datasource.Extractor.Rows.{FlowRow}

abbrev syn_at : ℕ → IpPacket
syn_at t = record {
  src_ip = "a";
  dst_ip = "b";
  layer = tcp 9 80 2;
  time = t;
  size = 60;
  qname = none;
}

abbrev query_at : ℕ → IpPacket
query_at t = record {
  src_ip = "a";
  dst_ip = "d";
  layer = udp 9 53;
  time = t;
  size = 70;
  qname = some 11;
}

abbrev capture : List (Option IpPacket)
capture = some (syn_at 5) ∷ none ∷ some (query_at 6) ∷ some (syn_at 9) ∷ []

abbrev syn_key : Key
syn_key = (("a", "b"), ((9, 80), "TCP"))

abbrev scan_label : Labeled
scan_label = record {
  key = (("a", "b"), (80, "TCP"));
  attack_family = some "SYN_FLOOD";
  label = none;
  severity = none;
  generator = some "hping3";
}

abbrev sidecar : Sidecar
sidecar = record { attack_type = "RECON"; generator_mode = "nmap"; entries = some scan_label ∷ [] }

abbrev rounded : ℕ → ℕ → ℕ
rounded digits x = x

abbrev never_dga : String → Bool
never_dga text = false

extract_features-CountsAll_example : CountsAll whole capture (
    extract_features whole rounded
      (λ text. text)
      never_dga
      true
      []
      "scapy"
      capture
      (some (some sidecar)))
unfolding pick_backend
extract_features-CountsAll_example =
    extract_features-CountsAll whole rounded (λ text. text) never_dga true [] "scapy" capture
      (some (some sidecar)) refl

abbrev label_of : FlowRow ℕ → (String × String) × (String × ℕ)
label_of r = ((r.attack_family, r.severity), (r.generator, r.pkt_count))

-- The SYN flood is labelled by its entry, the query as the attack of the capture.
labelled_capture :
    map label_of (
      extract_features whole rounded
        (λ text. text)
        never_dga
        false
        []
        "auto"
        capture
        (some (some sidecar)))
    ≡ (("SYN_FLOOD", "CRITICAL"), ("hping3", 2)) ∷ (("RECON", "MEDIUM"), ("nmap", 1)) ∷ []
unfolding extract_features apply_labels label_rows label_one
labelled_capture = refl
