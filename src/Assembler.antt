-- ===== src/Assembler.antt =====
-- FlowAssembler of assembler/flow_session_tables.py.
pub mod Table
pub mod Direction
pub mod Counts
pub mod Runs
mod Tests
use sih.Prelude.{
  ℕ, ◌+◌, ◌≡◌, ◌↔◌, String, Option, none, some, Bool, true, false, ◌&&◌, arith, if◌then◌else◌, ltb,
  not,
}
use sih.Prelude.Eq.{Eq, ◌==◌, nat_eq, string_eq}
use sih.Prelude.Text.{text_lt, sort_pair}
use sih.Dict.{put}
use sih.Parsers.Packet.{Meta}
use Table.{Entry, BoundedTable, init, get_or_create}

-- The key (ip1, port1, ip2, port2, protocol).
pub record FlowKey : Type 0 where
  pub ip1 : String
  pub port1 : ℕ
  pub ip2 : String
  pub port2 : ℕ
  pub protocol : String

abbrev pub key_beq : FlowKey → FlowKey → Bool
key_beq k j =
    k.ip1 == j.ip1
    && k.port1 == j.port1
    && k.ip2 == j.ip2
    && k.port2 == j.port2
    && k.protocol == j.protocol

pub key_beq_iff : (k j : FlowKey) → (key_beq k j ≡ true) ↔ (k ≡ j)
key_beq_iff k j = ground (
  arith,
  string_eq.beq_iff k.ip1 j.ip1,
  nat_eq.beq_iff k.port1 j.port1,
  string_eq.beq_iff k.ip2 j.ip2,
  nat_eq.beq_iff k.port2 j.port2,
  string_eq.beq_iff k.protocol j.protocol,
)

instance abbrev pub key_eq : Eq FlowKey
key_eq = record { beq = key_beq; beq_iff = key_beq_iff }

-- What `flow_factory` returns.
pub record Flow : Type 0 where
  pub packet_count : ℕ
  pub byte_count : ℕ
  pub protocol : String
  pub src_ip : String
  pub dst_ip : String
  pub src_port : ℕ
  pub dst_port : ℕ

pub record FlowAssembler : Type 0 where
  pub flows : BoundedTable FlowKey Flow
  pub dns_tx : BoundedTable FlowKey Flow
  pub tls_sessions : BoundedTable FlowKey Flow

unfoldable pub new_assembler : ℕ → ℕ → ℕ → FlowAssembler
unfolding init
new_assembler max_flows max_dns max_tls = record {
  flows = init "5-Tuple Flows" max_flows 300;
  dns_tx = init "DNS Transactions" max_dns 10;
  tls_sessions = init "TLS Sessions" max_tls 300;
}

-- `_make_5tuple`, for a packet with the protocol `protocol`
unfoldable pub make_5tuple : Meta → String → FlowKey
make_5tuple m protocol =
    let (ip1, ip2) = sort_pair text_lt m.src_ip m.dst_ip in
    let (port1, port2) = sort_pair ltb m.src_port m.dst_port in
    record { ip1 = ip1; port1 = port1; ip2 = ip2; port2 = port2; protocol = protocol }

unfoldable pub flow_factory : Meta → String → Flow
flow_factory m protocol = record {
  packet_count = 0;
  byte_count = 0;
  protocol = protocol;
  src_ip = m.src_ip;
  dst_ip = m.dst_ip;
  src_port = m.src_port;
  dst_port = m.dst_port;
}

-- `flow['packet_count'] += 1; flow['byte_count'] += meta.get('ip_len', 0)`
unfoldable pub count_packet : Meta → Entry Flow → Entry Flow
count_packet m flow = record flow {
  fields = record flow.fields {
    packet_count = flow.fields.packet_count + 1;
    byte_count = flow.fields.byte_count + m.ip_len;
  };
}

-- `flow` is the object that the table holds, so the increments are written back under its key.
unfoldable pub add_packet :
    Meta
    → String
    → Option ℕ
    → ℕ
    → BoundedTable FlowKey Flow
    → Entry Flow × BoundedTable FlowKey Flow
unfolding count_packet
add_packet m protocol current_time now flows =
    let key = make_5tuple m protocol in
    let (flow, kept) = get_or_create key (flow_factory m protocol) current_time now flows in
    let counted = count_packet m flow in
    (counted, record kept { table = put key counted kept.table })

-- `if not meta or not meta.get('protocol')`: the protocol of a packet that is counted
unfoldable pub usable : Option Meta → Option (Meta × String)
usable none = none
usable (some m) = elim m.protocol [
  | none ↦ none
  | some protocol ↦ if protocol == "" then none else some (m, protocol)
]

unfoldable pub process_packet_meta :
    Option Meta → Option ℕ → ℕ → FlowAssembler → Option (Entry Flow) × FlowAssembler
unfolding usable add_packet
process_packet_meta packet current_time now a = elim (usable packet) [
  | none ↦ (none, a)
  | some (m, protocol) ↦
      (let (flow, flows) = add_packet m protocol current_time now a.flows in
        (some flow, record a { flows = flows }))
]
