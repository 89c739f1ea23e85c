-- ===== src/Features/Traffic.antt =====
-- EncryptedMetaFeatureExtractor, ExfiltrationFeatureExtractor and ReconScanFeatureExtractor of
-- features/.
pub mod History
use sih.Prelude.Eq.{◌==◌, string_eq}
use sih.Features.Numbers.{Numbers}
use sih.Features.Online.{Ewma, update_ewma, get_ewma, new_ewma}
use sih.Features.Ddos.{add_to, at_least_one, is_protocol}
use sih.Features.Sketch.{CountMinSketch, new_sketch}
use Prim.Native.String.{count}
use sih.Parsers.Tls.{Handshake}
use sih.Prelude.{
  ◌++◌, ◌∷◌, [], List, some, none, Option, Bool, String, ◌+◌, ℕ, length, if◌then◌else◌, nat_beq,
  ltb,
}
use sih.Parsers.Packet.{Meta}

pub record ReconExtractor : Type 0 where
  pub distinct_ports_cms : CountMinSketch
  pub distinct_hosts_cms : CountMinSketch
  pub syn_count : ℕ
  pub total_tcp_count : ℕ

abbrev pub new_recon : ReconExtractor
new_recon = record {
  distinct_ports_cms = new_sketch 1024 4;
  distinct_hosts_cms = new_sketch 1024 4;
  syn_count = 0;
  total_tcp_count = 0;
}

-- The texts f"{src_ip}:{dst_port}" and f"{src_ip}:{dst_ip}" are the pairs of their parts.
unfoldable pub update_recon :
    (ℕ → String × ℕ → ℕ) → (ℕ → String × String → ℕ) → Meta → ReconExtractor → ReconExtractor
update_recon port_digest host_digest m r =
    let added = record r {
      distinct_ports_cms = add_to port_digest (m.src_ip, m.dst_port) r.distinct_ports_cms;
      distinct_hosts_cms = add_to host_digest (m.src_ip, m.dst_ip) r.distinct_hosts_cms;
    } in
    if is_protocol "TCP" m.protocol
    then record added {
      total_tcp_count = added.total_tcp_count + 1;
      syn_count = (if nat_beq m.tcp_flags 2 then added.syn_count + 1 else added.syn_count);
    }
    else added

module _ (nu : Numbers) where
  open nu use {F, int, tenths, minus, times, over, lt}

  pub record ReconFeatures : Type 0 where
    pub syn_only_ratio : F
    pub scan_activity_score : F

  unfoldable pub extract_recon : ReconExtractor → ReconFeatures
  extract_recon r =
      let syn_ratio = over (int r.syn_count) (int (at_least_one r.total_tcp_count)) in
      record { syn_only_ratio = syn_ratio; scan_activity_score = times syn_ratio (int r.syn_count) }

  pub record ExfilExtractor : Type 0 where
    pub outbound_bytes_ewma : Ewma nu
    pub inbound_bytes_ewma : Ewma nu

  abbrev pub new_exfil : ExfilExtractor
  new_exfil = record {
    outbound_bytes_ewma = new_ewma nu (tenths 1);
    inbound_bytes_ewma = new_ewma nu (tenths 1);
  }

  unfoldable pub update_exfil : Meta → Bool → ExfilExtractor → ExfilExtractor
  unfolding update_ewma
  update_exfil m is_outbound e =
      if is_outbound
      then record e { outbound_bytes_ewma = update_ewma nu (int m.ip_len) e.outbound_bytes_ewma }
      else record e { inbound_bytes_ewma = update_ewma nu (int m.ip_len) e.inbound_bytes_ewma }

  pub record ExfilFeatures : Type 0 where
    pub outbound_bytes : F
    pub inbound_bytes : F
    pub outbound_inbound_ratio : F

  unfoldable pub extract_exfil : ExfilExtractor → ExfilFeatures
  unfolding get_ewma
  extract_exfil e =
      let out_b = get_ewma nu e.outbound_bytes_ewma in
      let in_b = get_ewma nu e.inbound_bytes_ewma in
      record {
        outbound_bytes = out_b;
        inbound_bytes = in_b;
        outbound_inbound_ratio = over out_b (if lt (int 1) in_b then in_b else int 1);
      }

  pub record EncryptedExtractor : Type 0 where
    pub packet_sizes : List ℕ
    pub packet_timings : List ℕ
    pub max_packet_history : ℕ
    pub sni_entropy_ewma : Ewma nu

  abbrev pub new_encrypted : ℕ → EncryptedExtractor
  new_encrypted max_packet_history = record {
    packet_sizes = [];
    packet_timings = [];
    max_packet_history = max_packet_history;
    sni_entropy_ewma = new_ewma nu (tenths 2);
  }

  -- `if sni:`; a text that is empty is false
  abbrev pub count_sni : Option String → Ewma nu → Ewma nu
  unfolding update_ewma
  count_sni none e = e
  count_sni (some sni) e = if sni == "" then e else update_ewma nu (int (count sni)) e

  unfoldable pub update_encrypted : Meta → Handshake → ℕ → EncryptedExtractor → EncryptedExtractor
  unfolding count_sni
  update_encrypted m tls now e =
      let room = ltb (length e.packet_sizes) e.max_packet_history in
      record e {
        packet_sizes = (if room then e.packet_sizes ++ m.ip_len ∷ [] else e.packet_sizes);
        packet_timings = (if room then e.packet_timings ++ now ∷ [] else e.packet_timings);
        sni_entropy_ewma = count_sni tls.sni e.sni_entropy_ewma;
      }

  -- The loop over the timings: the differences of neighbours.
  unfoldable pub ipts_from : ℕ → List ℕ → List F
  ipts_from before [] = []
  ipts_from before (now ∷ timings) = minus (int now) (int before) ∷ ipts_from now timings

  unfoldable pub ipts : List ℕ → List F
  unfolding ipts_from
  ipts [] = []
  ipts (first ∷ timings) = ipts_from first timings

  pub record EncryptedFeatures : Type 0 where
    pub sizes : List ℕ
    pub packet_ipts : List F
    pub sni_length_ewma : F

  unfoldable pub extract_encrypted : EncryptedExtractor → EncryptedFeatures
  unfolding ipts get_ewma
  extract_encrypted e = record {
    sizes = e.packet_sizes;
    packet_ipts = ipts e.packet_timings;
    sni_length_ewma = get_ewma nu e.sni_entropy_ewma;
  }
