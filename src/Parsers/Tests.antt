-- ===== src/Parsers/Tests.antt =====
-- parse_packet over a decoder that reads one packet.
use sih.Parsers.Packet.{Network, parse_packet, Parsed, Dpkt, ip4, tcp, meta, no_meta, value_error}
use sih.Prelude.{◌∷◌, [], some, none, refl, ◌≡◌, ℕ}
use sih.Parsers.Packet.Clean.{parse_packet-IsParsed, IsDpkt, IsParsed}

abbrev one_packet : Network
one_packet = ip4 (10 ∷ 0 ∷ 0 ∷ 1 ∷ []) (10 ∷ 0 ∷ 0 ∷ 2 ∷ []) 60 (tcp 4000 80 2 (7 ∷ []))

abbrev decoder : Dpkt
decoder = record {
  parse_ip = λ raw. some one_packet;
  parse_ip6 = λ raw. none;
  parse_ethernet = λ raw. some none;
  ntop4 = λ inet. "10.0.0.1";
  ntop6 = λ inet. "::1";
}

decoder-IsDpkt : IsDpkt decoder
decoder-IsDpkt = record { ip = λ raw. (refl, refl); ip6_packet = λ raw. tt; frame = λ raw. tt }

program : Unit {0}
unfolding parse_packet
program = tt

parse_packet-IsParsed_example : IsParsed (parse_packet decoder (69 ∷ 0 ∷ []))
parse_packet-IsParsed_example = parse_packet-IsParsed decoder (69 ∷ 0 ∷ []) decoder-IsDpkt

ports_of : Parsed → ℕ × ℕ
ports_of (meta m) = (m.src_port, m.dst_port)
ports_of no_meta = (0, 0)
ports_of value_error = (0, 0)

-- 69 is 0x45, the first byte of an IPv4 packet.
ports : ports_of (parse_packet decoder (69 ∷ 0 ∷ [])) ≡ (4000, 80)
unfolding program ports_of
ports = refl
