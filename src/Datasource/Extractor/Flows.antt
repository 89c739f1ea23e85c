-- ===== src/Datasource/Extractor/Flows.antt =====
-- What the flow of a key has: what its own packets give, whatever others come in between.
use sih.Prelude.Eq.{Eq, nat_eq, string_eq, pair_eq}
use sih.Features.Numbers.{Numbers}
use sih.Prelude.{◌∷◌, [], List, some, none, Option, if◌then◌else◌}
use sih.Datasource.Extractor.{flow_or_new, add_to_flow, key_of, FlowStats, IpPacket, Key}

abbrev key_eq : Eq Key
key_eq = pair_eq

-- The packets of a key, in their order.
unfoldable pub packets_of : Key → List (Option IpPacket) → List IpPacket
packets_of key [] = []
packets_of key (none ∷ packets) = packets_of key packets
packets_of key (some p ∷ packets) =
    let rest = packets_of key packets in if key_eq.beq (key_of p) key then p ∷ rest else rest

module _ (nu : Numbers) where
  open nu use {F}

  -- The accumulators after the packets of one flow, `none` before the first.
  unfoldable pub summary : List IpPacket → Option (FlowStats nu) → Option (FlowStats nu)
  summary [] o = o
  summary (p ∷ packets) o = summary packets (some (add_to_flow nu p (flow_or_new nu p.time o)))
