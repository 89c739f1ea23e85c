-- ===== src/Ingest/Pcap.antt =====
-- BoundedPcapReader of ingest/pcap_reader.py: the producer thread and its consumer as steps on a
-- shared queue, in any order. `A` is the type of a packet with its time, and `none` in the queue is
-- the sentinel (None, None).
pub mod Sublist
pub mod Stream
pub mod Runs
use sih.Prelude.{
  ◌++◌, ◌∷◌, [], List, some, none, Option, ◌&&◌, not, false, true, Bool, ◌%◌, ◌*◌, ◌+◌, suc, zero,
  ℕ, drop, length, if◌then◌else◌, nat_beq, leb, ltb,
}

-- Where the producer thread is: in the loop over the packets, before the put of the sentinel, after.
pub data Phase : Type 0 where
  reading ending ended : Phase

-- `period` is `int(1.0 / sample_rate_on_pressure)`. `received` is what `get_packet` has returned.
pub record Reader (A : Type 0) : Type 0 where
  pub max_buffer_size : ℕ
  pub period : ℕ
  pub buffer : List (Option A)
  pub stop_event : Bool
  pub dropped_packets : ℕ
  pub packet_count : ℕ
  pub phase : Phase
  pub received : List (Option A)

-- `packet_count % period != 0`; `none` is a ZeroDivisionError
unfoldable pub is_skipped : ℕ → ℕ → Option Bool
is_skipped zero count = none
is_skipped (suc n) count = some (not (nat_beq (count % suc n) 0))

module _ {A : Type 0} where
  abbrev pub new_reader : ℕ → ℕ → Reader A
  new_reader max_buffer_size period = record {
    max_buffer_size = max_buffer_size;
    period = period;
    buffer = [];
    stop_event = false;
    dropped_packets = 0;
    packet_count = 0;
    phase = reading;
    received = [];
  }

  -- queue.Full: a queue of no positive size is never full
  abbrev pub is_full : Reader A → Bool
  is_full r = ltb 0 r.max_buffer_size && leb r.max_buffer_size (length r.buffer)

  -- `qsize() > max_buffer_size * 0.8`, in whole numbers
  abbrev pub is_pressed : Reader A → Bool
  is_pressed r = ltb (4 * r.max_buffer_size) (5 * length r.buffer)

  abbrev pub drop_packet : Reader A → Reader A
  drop_packet r = record r { dropped_packets = r.dropped_packets + 1 }

  -- `put_nowait`, and a drop where it raises queue.Full
  unfoldable pub put_nowait : A → Reader A → Reader A
  put_nowait a r =
      if is_full r then drop_packet r else record r { buffer = r.buffer ++ some a ∷ [] }

  -- A packet under pressure; an exception ends the loop.
  unfoldable pub sampled : Option Bool → A → Reader A → Reader A
  unfolding put_nowait
  sampled none a r = record r { phase = ending }
  sampled (some true) a r = drop_packet r
  sampled (some false) a r = put_nowait a r

  -- The body of the loop, after the test of the stop event.
  unfoldable pub offer : A → Reader A → Reader A
  unfolding put_nowait sampled is_skipped
  offer a r =
      let counted = record r { packet_count = r.packet_count + 1 } in
      if is_pressed r
      then sampled (is_skipped r.period (r.packet_count + 1)) a counted
      else put_nowait a counted

  -- A round of the loop, on the next packet of the file.
  unfoldable pub read_packet : A → Phase → Reader A → Reader A
  unfolding offer
  read_packet a reading r = if r.stop_event then record r { phase = ending } else offer a r
  read_packet a ending r = r
  read_packet a ended r = r

  -- The end of the file, or an exception of the reader of the file.
  abbrev pub end_file : Phase → Reader A → Reader A
  end_file reading r = record r { phase = ending }
  end_file ending r = r
  end_file ended r = r

  -- The put of the sentinel, which gives up where the queue is full until the timeout.
  unfoldable pub put_sentinel : Phase → Reader A → Reader A
  put_sentinel reading r = r
  put_sentinel ending r =
      if is_full r
      then record r { phase = ended }
      else record r { phase = ended; buffer = r.buffer ++ none ∷ [] }
  put_sentinel ended r = r

  -- `get_packet`; with an empty queue it raises queue.Empty and changes nothing.
  unfoldable pub get_packet : List (Option A) → Reader A → Reader A
  get_packet [] r = r
  get_packet (x ∷ rest) r = record r { buffer = rest; received = r.received ++ x ∷ [] }

-- The steps of the two threads.
pub data Event (A : Type 0) : Type 0 where
  packet : A → Event A
  file_end sentinel take_one stop : Event A

unfoldable pub step : {A : Type 0} → Event A → Reader A → Reader A
unfolding read_packet put_sentinel get_packet
step (packet a) r = read_packet a r.phase r
step file_end r = end_file r.phase r
step sentinel r = put_sentinel r.phase r
step take_one r = get_packet r.buffer r
step stop r = record r { stop_event = true }

unfoldable pub run : {A : Type 0} → List (Event A) → Reader A → Reader A
unfolding step
run [] r = r
run (e ∷ events) r = run events (step e r)
