-- ===== src/Assembler/Tests.antt =====
-- Runs of the flow assembler, and the theorems at concrete tables.
use sih.Assembler.Table.Recency.{run-IsLastUsed, Access, note, Tracks}
use sih.Assembler.Table.Uses.{touch}
use sih.Assembler.Table.Recency
use sih.Assembler.Runs.{run_counts, counted, bytes_of, packets_of, run-IsBounded, run, Arrival}
use sih.Assembler.Table.{
  get, delete_all, keys_to_remove, Entry, get_or_create, init, evict_expired, is_expired,
  BoundedTable,
}
use sih.Assembler.{key_eq, flow_factory, process_packet_meta, new_assembler, make_5tuple, FlowKey}
use sih.Prelude.{
  ◌≤◌, String, ◌∷◌, ◌↔◌, refl, ◌≡◌, ◌-◌, ◌+◌, if◌then◌else◌, nat_beq, none, [], some, arith, length,
  ℕ, List,
}
use sih.Dict.{put, Distinct, erase, lookup}
use sih.Dict.Keys.{erase_key, occurs, keys}
use sih.Assembler.Table.Bounds.{get_or_create-IsValid, init-IsValid, IsValid}
use sih.Parsers.Packet.{Meta}
use sih.Assembler.Counts.{bytes, packets}
use sih.Assembler.Table.Expiry.{evict_expired-eq-unexpired, unexpired}
use sih.Prelude.Text.{text_lt}
use sih.Assembler.Table.Entries.{is_oldest, lookup-get_or_create, evicts}
use sih.Assembler.Direction.{make_5tuple-eq_iff, SamePair}
use sih.Prelude.Eq.{nat_eq}

abbrev first_packet : Meta
first_packet = record {
  src_ip = "10.0.0.2";
  dst_ip = "10.0.0.1";
  ip_len = 60;
  protocol = some "TCP";
  src_port = 4000;
  dst_port = 80;
  tcp_flags = 2;
  payload = [];
}

abbrev reply : Meta
reply = record first_packet {
  src_ip = "10.0.0.1";
  dst_ip = "10.0.0.2";
  ip_len = 40;
  src_port = 80;
  dst_port = 4000;
}

abbrev no_protocol : Meta
no_protocol = record first_packet { protocol = none }

abbrev arrivals : List Arrival
arrivals =
    record { packet = some first_packet; current_time = some 5; now = 9 }
    ∷ record { packet = some no_protocol; current_time = none; now = 9 }
    ∷ record { packet = some reply; current_time = some 7; now = 9 }
    ∷ []

program : Unit {0}
unfolding lookup erase put text_lt get_or_create process_packet_meta run new_assembler packets bytes
    make_5tuple flow_factory packets_of bytes_of counted keys_to_remove delete_all evict_expired get
    occurs erase_key touch note unexpired is_oldest evicts
program = tt

abbrev flow_key : FlowKey
flow_key = record { ip1 = "10.0.0.1"; port1 = 80; ip2 = "10.0.0.2"; port2 = 4000; protocol = "TCP" }

-- A packet and its reply are one flow; the packet with no protocol is not counted.
two_packets :
    (packets flow_key (run arrivals (new_assembler 2 2 2)).flows ≡ 2)
    × (bytes flow_key (run arrivals (new_assembler 2 2 2)).flows ≡ 100)
unfolding program
two_packets = (refl, refl)

new_flows-IsValid : IsValid (new_assembler 2 2 2).flows
unfolding new_assembler
new_flows-IsValid = init-IsValid "5-Tuple Flows" 2 300 (omega arith)

run_counts_example :
    (packets flow_key (run arrivals (new_assembler 2 2 2)).flows
      ≡ packets flow_key (new_assembler 2 2 2).flows + packets_of flow_key arrivals)
    × (bytes flow_key (run arrivals (new_assembler 2 2 2)).flows
        ≡ bytes flow_key (new_assembler 2 2 2).flows + bytes_of flow_key arrivals)
unfolding program
run_counts_example = run_counts arrivals (new_assembler 2 2 2) flow_key new_flows-IsValid refl

run-IsBounded_example :
    (length (run arrivals (new_assembler 2 2 2)).flows.table ≤ 2)
    × Distinct (run arrivals (new_assembler 2 2 2)).flows.table
    × ((run arrivals (new_assembler 2 2 2)).flows.max_size ≡ 2)
unfolding init new_assembler
run-IsBounded_example = run-IsBounded arrivals (new_assembler 2 2 2) (omega arith) (omega arith) tt

make_5tuple-eq_iff_example : (make_5tuple first_packet "TCP" ≡ make_5tuple reply "TCP") ↔ (
    SamePair {A = String} "10.0.0.2" "10.0.0.1" "10.0.0.1" "10.0.0.2"
    × SamePair {A = ℕ} 4000 80 80 4000)
make_5tuple-eq_iff_example = make_5tuple-eq_iff first_packet reply "TCP"

-- A table of two places that is full.
abbrev entry_at : ℕ → Entry ℕ
entry_at time = record { fields = time; first_seen = time; last_seen = time }

abbrev full : BoundedTable ℕ ℕ
full = record {
  name = "t";
  max_size = 2;
  ttl_seconds = 10;
  table = (1, entry_at 3) ∷ (2, entry_at 8) ∷ [];
  evicted_count = 0;
}

full-Distinct : Distinct full.table
unfolding lookup
full-Distinct = (refl, (refl, tt))

full-IsValid : IsValid full
full-IsValid = record { positive = omega arith; bounded = omega arith; distinct = full-Distinct }

evict_the_oldest : keys (get_or_create 3 0 (some 9) 0 full).1.table ≡ 2 ∷ 3 ∷ []
unfolding program
evict_the_oldest = refl

evict_expired-eq-unexpired_example :
    evict_expired 14 full
    ≡ some (record full {
      table = unexpired 14 10 full.table;
      evicted_count = 0 + (2 - length (unexpired 14 10 full.table));
    })
evict_expired-eq-unexpired_example = evict_expired-eq-unexpired 14 full full-Distinct

one_expired : unexpired 14 10 full.table ≡ (2, entry_at 8) ∷ []
unfolding program is_expired
one_expired = refl

lookup-get_or_create_example : lookup 1 (get_or_create 3 0 (some 9) 0 full).1.table ≡ (
    if nat_beq 3 1
    then some (get_or_create 3 0 (some 9) 0 full).0
    else if evicts 3 1 full
    then none
    else lookup 1 full.table)
lookup-get_or_create_example = lookup-get_or_create 3 1 0 (some 9) 0 full full-IsValid

get_or_create-IsValid_example : IsValid (get_or_create 3 0 (some 9) 0 full).1
get_or_create-IsValid_example = get_or_create-IsValid 3 0 (some 9) 0 full full-IsValid

abbrev calls : List (Access ℕ ℕ)
calls =
    record { key = 1; made = 0; time = 1 }
    ∷ record { key = 2; made = 0; time = 2 }
    ∷ record { key = 1; made = 0; time = 3 }
    ∷ record { key = 3; made = 0; time = 4 }
    ∷ []

run-IsLastUsed_example :
    Tracks (Recency.run calls (init "t" 2 10)) (note calls [])
    × ((Recency.run calls (init "t" 2 10)).max_size ≡ 2)
run-IsLastUsed_example = run-IsLastUsed "t" 2 10 calls (omega arith)
