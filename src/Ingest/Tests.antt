-- ===== src/Ingest/Tests.antt =====
-- The pcap reader at a concrete order of steps.
-- A queue of 2: the third packet comes under pressure, and is dropped.
use sih.Prelude.{arith, ◌∷◌, [], List, some, none, refl, ◌≡◌, ℕ}
use sih.Ingest.Pcap.{
  get_packet, put_sentinel, put_nowait, is_skipped, sentinel, sampled, offer, file_end, take_one,
  read_packet, new_reader, packet, step, run, Event,
}
use sih.Ingest.Pcap.Stream.{packets_of, IsStream}
use sih.Ingest.Pcap.Runs.{run-IsStream}

abbrev events : List (Event ℕ)
events =
    packet 10 ∷ packet 11 ∷ packet 12 ∷ take_one ∷ file_end ∷ sentinel ∷ take_one ∷ packet 13 ∷ []

program : Unit {0}
unfolding run step read_packet offer sampled is_skipped put_nowait put_sentinel get_packet
    packets_of
program = tt

after : (run events (new_reader 2 10)).received ≡ some 10 ∷ some 11 ∷ []
unfolding program
after = refl

left : (run events (new_reader 2 10)).buffer ≡ none ∷ []
unfolding program
left = refl

dropped : (run events (new_reader 2 10)).dropped_packets ≡ 1
unfolding program
dropped = refl

run-IsStream_example : IsStream (run events (new_reader 2 10)) (packets_of events)
run-IsStream_example = run-IsStream 2 10 events (omega arith) (omega arith)
