-- ===== src/Features/Ddos.antt =====
-- DDoSFeatureExtractor of features/ddos_features.py.
use sih.Features.Numbers.{Numbers}
use sih.Features.Online.{Ewma, update_ewma, get_ewma, new_ewma, approximate_entropy}
use sih.Features.Sketch.{CountMinSketch, new_sketch}
use sih.Features.Sweep.{sweep_stale_state}
use sih.Parsers.Packet.{Meta}
use sih.Prelude.{
  [], List, some, none, Option, false, Bool, String, ◌+◌, ℕ, if◌then◌else◌, nat_beq, ltb,
}
use sih.Dict.{put, lookup}
use sih.Prelude.Eq.{◌==◌, string_eq}

-- A packet: what the parser gives, and `orig_pkts`, which it does not give and other sources may.
pub record Packet : Type 0 where
  pub meta : Meta
  pub orig_pkts : Option ℕ

abbrev pub is_protocol : String → Option String → Bool
is_protocol name none = false
is_protocol name (some protocol) = protocol == name

-- max(1, n)
abbrev pub at_least_one : ℕ → ℕ
at_least_one n = if ltb 1 n then n else 1

abbrev or_one : Option ℕ → ℕ
or_one none = 1
or_one (some n) = n

-- The counters that are reset with every window.
pub record Counters : Type 0 where
  pub syn_count : ℕ
  pub syn_ack_count : ℕ
  pub amp_req_bytes : ℕ
  pub amp_res_bytes : ℕ

abbrev pub no_counts : Counters
no_counts = record { syn_count = 0; syn_ack_count = 0; amp_req_bytes = 0; amp_res_bytes = 0 }

abbrev pub count_flags : ℕ → Counters → Counters
count_flags flags c =
    if nat_beq flags 2
    then record c { syn_count = c.syn_count + 1 }
    else if nat_beq flags 18
    then record c { syn_ack_count = c.syn_ack_count + 1 }
    else c

abbrev pub count_bytes : Meta → Counters → Counters
count_bytes m c =
    if nat_beq m.dst_port 53
    then record c { amp_req_bytes = c.amp_req_bytes + m.ip_len }
    else if nat_beq m.src_port 53
    then record c { amp_res_bytes = c.amp_res_bytes + m.ip_len }
    else c

-- The two blocks at the end of `update`.
unfoldable pub count_meta : Meta → Counters → Counters
count_meta m c =
    let flagged = if is_protocol "TCP" m.protocol then count_flags m.tcp_flags c else c in
    if is_protocol "UDP" m.protocol then count_bytes m flagged else flagged

-- `add` of a sketch that has columns and its rows: it raises nothing, and `none` does not occur.
abbrev pub add_to : {I : Type 0} → (ℕ → I → ℕ) → I → CountMinSketch → CountMinSketch
unfolding sih.Features.Sketch.add
add_to digest item s = elim (sih.Features.Sketch.add digest item 1 s) [
  | none ↦ s
  | some added ↦ added
]

module _ (nu : Numbers) where
  open nu use {F, int, tenths, over}

  pub record DstState : Type 0 where
    pub pkt_ewma : Ewma nu
    pub byte_ewma : Ewma nu
    pub last_time : ℕ

  pub record DdosExtractor : Type 0 where
    pub src_ip_entropy_cms : CountMinSketch
    pub dst_state : List (String × DstState)
    pub counters : Counters

  abbrev pub new_ddos : DdosExtractor
  new_ddos = record { src_ip_entropy_cms = new_sketch 1024 4; dst_state = []; counters = no_counts }

  -- The state of a destination before its averages are updated.
  abbrev pub touched : ℕ → Option DstState → DstState
  touched now none = record {
    pkt_ewma = new_ewma nu (tenths 2);
    byte_ewma = new_ewma nu (tenths 2);
    last_time = now;
  }
  touched now (some state) = record state { last_time = now }

  unfoldable pub averaged_state : Packet → DstState → DstState
  unfolding update_ewma
  averaged_state p state = record state {
    pkt_ewma = update_ewma nu (int (or_one p.orig_pkts)) state.pkt_ewma;
    byte_ewma = update_ewma nu (int p.meta.ip_len) state.byte_ewma;
  }

  unfoldable pub update_ddos : (ℕ → String → ℕ) → Packet → ℕ → DdosExtractor → DdosExtractor
  unfolding averaged_state count_meta lookup
  update_ddos digest p now d =
      let state = touched now (lookup p.meta.dst_ip d.dst_state) in
      record {
        src_ip_entropy_cms = add_to digest p.meta.src_ip d.src_ip_entropy_cms;
        dst_state = put p.meta.dst_ip (averaged_state p state) d.dst_state;
        counters = count_meta p.meta d.counters;
      }

  pub record DdosFeatures : Type 0 where
    pub src_ip_entropy : Option F
    pub dst_pkt_ewma : F
    pub dst_byte_ewma : F
    pub syn_synack_ratio : F
    pub amp_byte_ratio : F

  abbrev rate_of : (DstState → Ewma nu) → Option DstState → F
  unfolding get_ewma
  rate_of ewma none = int 0
  rate_of ewma (some state) = get_ewma nu (ewma state)

  unfoldable pub extract_ddos : String → DdosExtractor → DdosFeatures
  unfolding approximate_entropy get_ewma lookup
  extract_ddos dst_ip d =
      let c = d.counters in
      let state = lookup dst_ip d.dst_state in
      record {
        src_ip_entropy = approximate_entropy nu d.src_ip_entropy_cms;
        dst_pkt_ewma = rate_of (λ s. s.pkt_ewma) state;
        dst_byte_ewma = rate_of (λ s. s.byte_ewma) state;
        syn_synack_ratio = over (int c.syn_count) (int (at_least_one c.syn_ack_count));
        amp_byte_ratio = over (int c.amp_res_bytes) (int (at_least_one c.amp_req_bytes));
      }

  abbrev pub reset_window_counters : DdosExtractor → DdosExtractor
  reset_window_counters d = record d { counters = no_counts }

  unfoldable pub sweep_ddos : ℕ → ℕ → DdosExtractor → DdosExtractor
  unfolding sweep_stale_state
  sweep_ddos now ttl d = record d {
    dst_state = sweep_stale_state (λ s. s.last_time) now ttl d.dst_state;
  }
