-- ===== src/Datasource/Extractor.antt =====
-- The scapy backend of datasource/feature_extractor.py. What scapy reads of a packet is a parameter: a
-- packet is a record of it. A time is in milliseconds, and the arithmetic is that of Numbers.
pub mod Flows
pub mod Rows
use sih.Dict.{lookup, put}
use sih.Prelude.Eq.{nat_eq, string_eq, pair_eq}
use sih.Features.Numbers.{Numbers}
use sih.Prelude.{
  ◌++◌, ◌∷◌, [], List, some, none, Option, String, ◌%◌, ◌/◌, ◌+◌, ℕ, if◌then◌else◌, ltb,
}

pub data Layer4 : Type 0 where
  tcp : (sport dport flags : ℕ) → Layer4
  udp : (sport dport : ℕ) → Layer4
  neither : Layer4

-- A packet with an IP layer; `qname` is the length of the name that a DNS layer asks for.
pub record IpPacket : Type 0 where
  pub src_ip : String
  pub dst_ip : String
  pub layer : Layer4
  pub time : ℕ
  pub size : ℕ
  pub qname : Option ℕ

abbrev pub ports_of : Layer4 → ℕ × ℕ
ports_of (tcp sport dport flags) = (sport, dport)
ports_of (udp sport dport) = (sport, dport)
ports_of neither = (0, 0)

abbrev pub proto_of : Layer4 → String
proto_of (tcp sport dport flags) = "TCP"
proto_of (udp sport dport) = "UDP"
proto_of neither = "ICMP"

-- (src_ip, dst_ip, sport, dport, proto)
abbrev pub Key : Type 0
Key = (String × String) × ((ℕ × ℕ) × String)

abbrev pub key_of : IpPacket → Key
key_of p = ((p.src_ip, p.dst_ip), (ports_of p.layer, proto_of p.layer))

module _ (nu : Numbers) where
  open nu use {F, int, minus}

  pub record FlowStats : Type 0 where
    pub t_start : ℕ
    pub t_end : ℕ
    pub pkts : ℕ
    pub size_sum : ℕ
    pub iats : List F
    pub prev_ts : ℕ
    pub syn : ℕ
    pub ack : ℕ
    pub fin : ℕ
    pub rst : ℕ
    pub dns_lens : List ℕ

  abbrev pub new_flow : ℕ → FlowStats
  new_flow ts = record {
    t_start = ts;
    t_end = ts;
    pkts = 0;
    size_sum = 0;
    iats = [];
    prev_ts = ts;
    syn = 0;
    ack = 0;
    fin = 0;
    rst = 0;
    dns_lens = [];
  }

  -- flags & mask, for the mask that is 2 ^ k
  abbrev has_bit : ℕ → ℕ → ℕ
  has_bit flags mask = (flags / mask) % 2

  abbrev pub count_tcp_flags : Layer4 → FlowStats → FlowStats
  count_tcp_flags (tcp sport dport flags) f = record f {
    syn = f.syn + has_bit flags 2;
    ack = f.ack + has_bit flags 16;
    fin = f.fin + has_bit flags 1;
    rst = f.rst + has_bit flags 4;
  }
  count_tcp_flags (udp sport dport) f = f
  count_tcp_flags neither f = f

  abbrev pub add_name : Option ℕ → FlowStats → FlowStats
  add_name none f = f
  add_name (some n) f = record f { dns_lens = f.dns_lens ++ n ∷ [] }

  -- The body of the loop over the packets, on the accumulators of the flow.
  unfoldable pub add_to_flow : IpPacket → FlowStats → FlowStats
  add_to_flow p f = add_name p.qname (
      count_tcp_flags p.layer (record f {
        iats = (if ltb 0 f.pkts then f.iats ++ minus (int p.time) (int f.prev_ts) ∷ [] else f.iats);
        prev_ts = p.time;
        t_end = (if ltb f.t_end p.time then p.time else f.t_end);
        pkts = f.pkts + 1;
        size_sum = f.size_sum + p.size;
      }))

  abbrev pub flow_or_new : ℕ → Option FlowStats → FlowStats
  flow_or_new ts none = new_flow ts
  flow_or_new ts (some f) = f

  -- The loop over the packets; one without an IP layer is left out.
  unfoldable pub collect_flows :
      List (Option IpPacket) → List (Key × FlowStats) → List (Key × FlowStats)
  unfolding add_to_flow lookup put
  collect_flows [] flows = flows
  collect_flows (none ∷ packets) flows = collect_flows packets flows
  collect_flows (some p ∷ packets) flows =
      let key = key_of p in
      collect_flows packets (put key (add_to_flow p (flow_or_new p.time (lookup key flows))) flows)
