-- ===== src/Parsers/Packet/Clean.antt =====
-- What parse_packet returns for any buffer.
use sih.Parsers.Packet.{
  ip_length, transport, destination, Transport, bare, inet_to_str, assemble, decode, source,
  parse_packet, with_transport, Meta, Network, Parsed, Dpkt, ip4, ip6, tcp, udp, icmp, other, meta,
  no_meta, value_error,
}
use sih.Prelude.{
  ◌∷◌, [], List, some, none, Option, inr, inl, ◌⊎◌, sym, refl, ◌≡◌, String, ◌/◌, ℕ, length,
  Bool-cases, nat_beq,
}

-- What dpkt promises of the addresses of a packet that it has read.
abbrev IsAddressed : Option Network → Type 0
IsAddressed none = Unit
IsAddressed (some (ip4 src dst len t)) = (length src ≡ 4) × (length dst ≡ 4)
IsAddressed (some (ip6 src dst t)) = (length src ≡ 16) × (length dst ≡ 16)

abbrev IsAddressedFrame : Option (Option Network) → Type 0
IsAddressedFrame none = Unit
IsAddressedFrame (some frame) = IsAddressed frame

pub record IsDpkt (dpkt : Dpkt) : Type 0 where
  pub ip : (raw : List ℕ) → IsAddressed (dpkt.parse_ip raw)
  pub ip6_packet : (raw : List ℕ) → IsAddressed (dpkt.parse_ip6 raw)
  pub frame : (raw : List ℕ) → IsAddressedFrame (dpkt.parse_ethernet raw)

-- Without a protocol there are no ports, no flags and no payload; with one it is one of three, only
-- TCP has flags, and ICMP has no ports.
abbrev IsClean : Meta → Type 0
IsClean m =
    ((m.protocol ≡ none)
      × (m.src_port ≡ 0)
      × (m.dst_port ≡ 0)
      × (m.tcp_flags ≡ 0)
      × (m.payload ≡ []))
    ⊎ (m.protocol ≡ some "TCP")
    ⊎ ((m.protocol ≡ some "UDP") × (m.tcp_flags ≡ 0))
    ⊎ ((m.protocol ≡ some "ICMP") × (m.src_port ≡ 0) × (m.dst_port ≡ 0) × (m.tcp_flags ≡ 0))

abbrev pub IsParsed : Parsed → Type 0
IsParsed value_error = ⊥
IsParsed no_meta = Unit
IsParsed (meta m) = IsClean m

some_not_none : {A : Type 0} {a : A} → some a ≡ none → ⊥
some_not_none h = cc

with_transport-IsClean :
    (t : Transport) (src dst : String) (len : ℕ) → IsClean (with_transport t (bare src dst len))
unfolding with_transport bare
with_transport-IsClean (tcp sport dport bits payload) src dst len = inr (inl refl)
with_transport-IsClean (udp sport dport payload) src dst len = inr (inr (inl (refl, refl)))
with_transport-IsClean (icmp payload) src dst len = inr (inr (inr (refl, refl, refl, refl)))
with_transport-IsClean other src dst len = inl (refl, refl, refl, refl, refl)

module _ (dpkt : Dpkt) where
  inet_to_str_there :
      (inet : List ℕ)
      → (length inet ≡ 4) ⊎ (length inet ≡ 16)
      → (text : String) × (inet_to_str dpkt inet ≡ some text)
  unfolding inet_to_str
  inet_to_str_there inet (inl h) = (dpkt.ntop4 inet, rw (h, inet_to_str))
  inet_to_str_there inet (inr h) = (dpkt.ntop6 inet, rw (h, inet_to_str))

  assemble-IsParsed :
      (ip : Network) (src dst : Option String)
      → (text : String) × (src ≡ some text)
      → (text : String) × (dst ≡ some text)
      → IsParsed (assemble ip src dst)
  unfolding assemble
  assemble-IsParsed ip none dst (t, h) g = absurd (some_not_none (sym h))
  assemble-IsParsed ip (some src) none h (t, g) = absurd (some_not_none (sym g))
  assemble-IsParsed ip (some src) (some dst) h g =
      with_transport-IsClean (transport ip) src dst (ip_length ip)

  decode-IsAddressed : (raw : List ℕ) → IsDpkt dpkt → IsAddressed (decode dpkt raw)
  unfolding decode
  decode-IsAddressed [] d = tt
  decode-IsAddressed (b ∷ rest) d = elim (Bool-cases (nat_beq (b / 16) 4)) [
    | inl four ↦ rw (four, decode) (d.ip (b ∷ rest))
    | inr not_four ↦ elim (Bool-cases (nat_beq (b / 16) 6)) [
      | inl six ↦ rw (not_four, six, decode) (d.ip6_packet (b ∷ rest))
      | inr not_six ↦
          rw (not_four, not_six, decode)
            (framed (dpkt.parse_ethernet (b ∷ rest)) (d.frame (b ∷ rest)))
    ]
  ]
    where
      framed :
          (o : Option (Option Network))
          → IsAddressedFrame o
          → IsAddressed (elim o [ none ↦ none | some frame ↦ frame ])
      framed none h = tt
      framed (some frame) h = h

  network-IsParsed :
      (o : Option Network)
      → IsAddressed o
      → IsParsed (elim o [
        | none ↦ no_meta
        | some ip ↦ assemble ip (inet_to_str dpkt (source ip)) (inet_to_str dpkt (destination ip))
      ])
  unfolding source destination
  network-IsParsed none h = tt
  network-IsParsed (some (ip4 src dst len t)) h =
      assemble-IsParsed (ip4 src dst len t) _ _ (inet_to_str_there src (inl h.0))
        (inet_to_str_there dst (inl h.1))
  network-IsParsed (some (ip6 src dst t)) h =
      assemble-IsParsed (ip6 src dst t) _ _ (inet_to_str_there src (inr h.0))
        (inet_to_str_there dst (inr h.1))

  -- Where dpkt gives an IPv4 packet addresses of 4 bytes and an IPv6 packet addresses of 16,
  -- `parse_packet` raises no exception on any buffer. A result with no protocol has no ports, no
  -- flags and no payload; any other protocol is "TCP", "UDP" with no flags, or "ICMP" with no ports
  -- and no flags.
  pub parse_packet-IsParsed :
      (raw_buf : List ℕ) → IsDpkt dpkt → IsParsed (parse_packet dpkt raw_buf)
  unfolding parse_packet
  parse_packet-IsParsed raw_buf d =
      network-IsParsed (decode dpkt raw_buf) (decode-IsAddressed raw_buf d)
