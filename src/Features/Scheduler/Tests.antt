-- ===== src/Features/Scheduler/Tests.antt =====
-- The scheduler and the extractors at concrete packets.
use sih.Features.Numbers.{whole}
use sih.Features.Ddos.{Packet}
use sih.Features.Scheduler.Counted.{
  counters-run, since_fired, counts, bytes_of, Arrival, number_of, run,
}
use sih.Prelude.{arith, ◌∷◌, [], List, some, none, refl, ◌≡◌, ◌<◌, ◌≤◌, ◌-◌, ◌+◌, ℕ, length}
use sih.Features.Traffic.{new_encrypted, extract_encrypted}
use sih.Parsers.Tls.{Handshake}
use sih.Dict.{lookup}
use sih.Parsers.Packet.{Meta}
use sih.Features.Scheduler.{new_scheduler, Digests, Windows, process_packet}
use sih.Features.Traffic.History.{extract_encrypted-update_all, update_all, Seen}
use sih.Features.Sweep.{sweep_stale_state}
use sih.Features.Scheduler.Timing.{process_packet_timely}
use sih.Features.Sweep.Fresh.{lookup-sweep_stale_state}
use sih.Prelude.Eq.{string_eq}

abbrev meta : ℕ → ℕ → Meta
meta flags size = record {
  src_ip = "10.0.0.1";
  dst_ip = "10.0.0.2";
  ip_len = size;
  protocol = some "TCP";
  src_port = 4000;
  dst_port = 443;
  tcp_flags = flags;
  payload = [];
}

abbrev packet : ℕ → ℕ → Packet
packet flags size = record { meta = meta flags size; orig_pkts = none }

abbrev digests : Digests
digests = record { text = λ seed item. seed; port = λ seed item. seed; host = λ seed item. seed }

-- Ten ticks to a second
abbrev windows : Windows
windows = record { window_1s = 10; window_5s = 50; window_60s = 600 }

process_packet_timely_example :
    ((process_packet whole digests 10 windows
        (packet 2 60)
        25
        none
        none
        (new_scheduler whole)).1.lasts.last_1s
      ≤ 25)
    × (25
        < (process_packet whole digests 10 windows
            (packet 2 60)
            25
            none
            none
            (new_scheduler whole)).1.lasts.last_1s
          + 10)
    × (25
        < (process_packet whole digests 10 windows
            (packet 2 60)
            25
            none
            none
            (new_scheduler whole)).1.lasts.last_5s
          + 50)
    × (25
        < (process_packet whole digests 10 windows
            (packet 2 60)
            25
            none
            none
            (new_scheduler whole)).1.lasts.last_60s
          + 600)
process_packet_timely_example =
    process_packet_timely whole digests 10 windows (packet 2 60) 25 none none (new_scheduler whole)
      (ground arith, ground arith, ground arith)

abbrev arrival : ℕ → ℕ → Arrival
arrival flags time = record { packet = packet flags 60; time = time; dns = none; tls = none }

-- The window fires at the third.
abbrev arrivals : List Arrival
arrivals = arrival 2 5 ∷ arrival 18 9 ∷ arrival 2 17 ∷ arrival 2 18 ∷ arrival 2 19 ∷ []

counters-run_example :
    (run whole digests 10 windows arrivals (new_scheduler whole)).ddos.counters
    ≡ counts (since_fired whole digests 10 windows arrivals [] (new_scheduler whole))
unfolding number_of bytes_of
counters-run_example = counters-run whole digests 10 windows arrivals [] (new_scheduler whole) refl

abbrev handshake : Handshake
handshake = record { sni = some "a.b"; ciphers = []; extensions = [] }

abbrev packets : List (Seen whole)
packets = (meta 24 300, handshake, 5) ∷ (meta 24 90, handshake, 8) ∷ (meta 24 70, handshake, 9) ∷ []

extract_encrypted-update_all_example :
    ((extract_encrypted whole (update_all whole packets (new_encrypted whole 2))).sizes
      ≡ 300 ∷ 90 ∷ [])
    × (length
          (extract_encrypted whole (update_all whole packets (new_encrypted whole 2))).packet_ipts
        ≡ length (extract_encrypted whole (update_all whole packets (new_encrypted whole 2))).sizes
          - 1)
extract_encrypted-update_all_example = extract_encrypted-update_all whole 2 packets

lookup-sweep_stale_state_example :
    lookup "b" (sweep_stale_state (λ (t : ℕ). t) 100 60 (("a", 10) ∷ ("b", 50) ∷ [])) ≡ some 50
unfolding lookup
lookup-sweep_stale_state_example =
    lookup-sweep_stale_state (λ (t : ℕ). t) 100 60 "b" (("a", 10) ∷ ("b", 50) ∷ [])
      (refl, (refl, tt))
