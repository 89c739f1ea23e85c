-- ===== src/Parsers/Packet.antt =====
-- parsers/ip_tcp_udp.py. The decoding of raw bytes is dpkt's, a parameter of the model; so are the
-- two texts that `socket.inet_ntop` makes.
pub mod Clean
use sih.Prelude.{ℕ, ◌/◌, String, Option, none, some, List, [], ◌∷◌, if◌then◌else◌, nat_beq, length}

-- What the code reads of dpkt's objects: the payload of the network layer by its class, and the
-- packet, whose `len` only the class dpkt.ip.IP has.
pub data Transport : Type 0 where
  tcp : (sport dport flags : ℕ) → List ℕ → Transport
  udp : (sport dport : ℕ) → List ℕ → Transport
  icmp : List ℕ → Transport
  other : Transport

pub data Network : Type 0 where
  ip4 : (src dst : List ℕ) (len : ℕ) → Transport → Network
  ip6 : (src dst : List ℕ) → Transport → Network

-- dpkt's three constructors; `none` is an exception, `some none` a frame that holds no IP packet.
pub record Dpkt : Type 0 where
  pub parse_ip : List ℕ → Option Network
  pub parse_ip6 : List ℕ → Option Network
  pub parse_ethernet : List ℕ → Option (Option Network)
  pub ntop4 : List ℕ → String
  pub ntop6 : List ℕ → String

pub record Meta : Type 0 where
  pub src_ip : String
  pub dst_ip : String
  pub ip_len : ℕ
  pub protocol : Option String
  pub src_port : ℕ
  pub dst_port : ℕ
  pub tcp_flags : ℕ
  pub payload : List ℕ

-- The result of `parse_packet`; a ValueError leaves it from an address of a wrong length.
pub data Parsed : Type 0 where
  meta : Meta → Parsed
  no_meta : Parsed
  value_error : Parsed

module _ (dpkt : Dpkt) where
  -- `inet_ntop` takes 4 bytes for AF_INET and 16 for AF_INET6, and raises a ValueError otherwise.
  unfoldable inet_to_str : List ℕ → Option String
  inet_to_str inet =
      if nat_beq (length inet) 4
      then some (dpkt.ntop4 inet)
      else if nat_beq (length inet) 16
      then some (dpkt.ntop6 inet)
      else none

  -- The `try` block: every exception and every frame without an IP packet gives `none`.
  unfoldable decode : List ℕ → Option Network
  decode [] = none
  decode (b ∷ rest) =
      if nat_beq (b / 16) 4
      then dpkt.parse_ip (b ∷ rest)
      else if nat_beq (b / 16) 6
      then dpkt.parse_ip6 (b ∷ rest)
      else (elim (dpkt.parse_ethernet (b ∷ rest)) [ none ↦ none | some frame ↦ frame ])

unfoldable pub source : Network → List ℕ
source (ip4 src dst len t) = src
source (ip6 src dst t) = src

unfoldable destination : Network → List ℕ
destination (ip4 src dst len t) = dst
destination (ip6 src dst t) = dst

-- `ip.len if isinstance(ip, dpkt.ip.IP) else 0`
unfoldable ip_length : Network → ℕ
ip_length (ip4 src dst len t) = len
ip_length (ip6 src dst t) = 0

unfoldable transport : Network → Transport
transport (ip4 src dst len t) = t
transport (ip6 src dst t) = t

-- The dictionary before the transport layer is looked at.
unfoldable bare : String → String → ℕ → Meta
bare src dst len = record {
  src_ip = src;
  dst_ip = dst;
  ip_len = len;
  protocol = none;
  src_port = 0;
  dst_port = 0;
  tcp_flags = 0;
  payload = [];
}

unfoldable with_transport : Transport → Meta → Meta
with_transport (tcp sport dport flags payload) m = record m {
  protocol = some "TCP";
  src_port = sport;
  dst_port = dport;
  tcp_flags = flags;
  payload = payload;
}
with_transport (udp sport dport payload) m = record m {
  protocol = some "UDP";
  src_port = sport;
  dst_port = dport;
  payload = payload;
}
with_transport (icmp payload) m = record m { protocol = some "ICMP"; payload = payload }
with_transport other m = m

-- The two conversions of addresses stand outside the `try` block.
unfoldable assemble : Network → Option String → Option String → Parsed
unfolding source destination ip_length transport bare with_transport
assemble ip (some src) (some dst) =
    meta (with_transport (transport ip) (bare src dst (ip_length ip)))
assemble ip none dst = value_error
assemble ip (some src) none = value_error

unfoldable pub parse_packet : Dpkt → List ℕ → Parsed
unfolding inet_to_str decode assemble
parse_packet dpkt raw_buf = elim (decode dpkt raw_buf) [
  | none ↦ no_meta
  | some ip ↦ assemble ip (inet_to_str dpkt (source ip)) (inet_to_str dpkt (destination ip))
]
