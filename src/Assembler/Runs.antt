-- ===== src/Assembler/Runs.antt =====
-- A run of packets through FlowAssembler.
use sih.Prelude.{
  ◌∙◌, refl, ◌<◌, length, ℕ, ◌+◌, ◌≤◌, ◌≡◌, ap, Option, none, some, List, [], ◌∷◌, arith,
  if◌then◌else◌, Option-cases, inl, inr, String,
}
use sih.Parsers.Packet.{Meta}
use sih.Assembler.{
  FlowKey, Flow, FlowAssembler, key_eq, key_beq, make_5tuple, add_packet, usable,
  process_packet_meta,
}
use sih.Assembler.Table.{BoundedTable}
use sih.Assembler.Table.Bounds.{IsValid}
use sih.Assembler.Counts.{
  max_size-add_packet, add_packet_counts, evicted-add_packet-le, packets, bytes, add_packet-IsValid,
}
use sih.Dict.{Distinct}

-- A packet as it arrives, with the two times of the call.
pub record Arrival : Type 0 where
  pub packet : Option Meta
  pub current_time : Option ℕ
  pub now : ℕ

unfoldable pub run : List Arrival → FlowAssembler → FlowAssembler
run [] a = a
run (x ∷ rest) a = run rest (process_packet_meta x.packet x.current_time x.now a).1

-- What one packet adds to a flow: it counts where it has a protocol and the flow's key.
unfoldable pub counted : FlowKey → Option (Meta × String) → ℕ × ℕ
counted k none = (0, 0)
counted k (some (m, p)) = (
  if key_beq (make_5tuple m p) k then 1 else 0,
  if key_beq (make_5tuple m p) k then m.ip_len else 0,
)

abbrev pub adds : FlowKey → Option Meta → ℕ × ℕ
adds k packet = counted k (usable packet)

-- How many packets of the arrivals have the key `k`, and how many bytes they have.
unfoldable pub packets_of : FlowKey → List Arrival → ℕ
packets_of k [] = 0
packets_of k (x ∷ rest) = (adds k x.packet).0 + packets_of k rest

unfoldable pub bytes_of : FlowKey → List Arrival → ℕ
bytes_of k [] = 0
bytes_of k (x ∷ rest) = (adds k x.packet).1 + bytes_of k rest

-- The flow table after the packet that `usable` has let through, or after none.
flows_after :
    Option (Meta × String) → Option ℕ → ℕ → BoundedTable FlowKey Flow → BoundedTable FlowKey Flow
flows_after none current_time now t = t
flows_after (some (m, p)) current_time now t = (add_packet m p current_time now t).1

module _ (current_time : Option ℕ) (now : ℕ) where
  flows-process :
      (packet : Option Meta) (a : FlowAssembler)
      → (process_packet_meta packet current_time now a).1.flows
        ≡ flows_after (usable packet) current_time now a.flows
  unfolding process_packet_meta flows_after
  flows-process packet a = elim (Option-cases (usable packet)) [
    | inl skip ↦ rw (skip, process_packet_meta, flows_after)
    | inr (mp, use_it) ↦ rw (use_it, process_packet_meta, flows_after)
  ]

  module _ (t : BoundedTable FlowKey Flow) where
    flows_after-IsValid :
        (u : Option (Meta × String)) → IsValid t → IsValid (flows_after u current_time now t)
    unfolding flows_after
    flows_after-IsValid none h = h
    flows_after-IsValid (some (m, p)) h = add_packet-IsValid m p current_time now t h

    max_size-flows_after :
        (u : Option (Meta × String))
        → IsValid t
        → (flows_after u current_time now t).max_size ≡ t.max_size
    unfolding flows_after
    max_size-flows_after none h = refl
    max_size-flows_after (some (m, p)) h = max_size-add_packet m p current_time now t h

    flows_after_evicted :
        (u : Option (Meta × String))
        → t.evicted_count ≤ (flows_after u current_time now t).evicted_count
    unfolding flows_after
    flows_after_evicted none = omega arith
    flows_after_evicted (some (m, p)) = evicted-add_packet-le m p current_time now t

    flows_after_counts :
        (k : FlowKey) (u : Option (Meta × String))
        → IsValid t
        → (flows_after u current_time now t).evicted_count ≡ t.evicted_count
        → (packets k (flows_after u current_time now t) ≡ packets k t + (counted k u).0)
          × (bytes k (flows_after u current_time now t) ≡ bytes k t + (counted k u).1)
    unfolding flows_after counted
    flows_after_counts k none h same = omega arith
    flows_after_counts k (some (m, p)) h same = add_packet_counts m p current_time now t k h same

process-IsValid :
    (packet : Option Meta) (current_time : Option ℕ) (now : ℕ) (a : FlowAssembler)
    → IsValid a.flows
    → IsValid (process_packet_meta packet current_time now a).1.flows
process-IsValid packet current_time now a h =
    rw (flows-process current_time now packet a)
      (flows_after-IsValid current_time now a.flows (usable packet) h)

max_size-process :
    (packet : Option Meta) (current_time : Option ℕ) (now : ℕ) (a : FlowAssembler)
    → IsValid a.flows
    → (process_packet_meta packet current_time now a).1.flows.max_size ≡ a.flows.max_size
max_size-process packet current_time now a h =
    rw (flows-process current_time now packet a)
      (max_size-flows_after current_time now a.flows (usable packet) h)

-- From a flow table whose max_size is at least one, and which holds at most that many flows and no
-- key twice: however many packets arrive, it never holds more flows than the max_size it began with,
-- nor a key twice, and its max_size stays as it is.
pub run-IsBounded :
    (arrivals : List Arrival) (a : FlowAssembler)
    → 0 < a.flows.max_size
    → length a.flows.table ≤ a.flows.max_size
    → Distinct a.flows.table
    → (length (run arrivals a).flows.table ≤ a.flows.max_size)
      × Distinct (run arrivals a).flows.table
      × ((run arrivals a).flows.max_size ≡ a.flows.max_size)
unfolding run
run-IsBounded [] a pos small distinct = (small, distinct, refl)
run-IsBounded (x ∷ rest) a pos small distinct =
    let start : IsValid a.flows = record { positive = pos; bounded = small; distinct = distinct } in
    let a' = (process_packet_meta x.packet x.current_time x.now a).1 in
    let valid = process-IsValid x.packet x.current_time x.now a start in
    let same = max_size-process x.packet x.current_time x.now a start in
    let later = run-IsBounded rest a' valid.positive valid.bounded valid.distinct in
    (omega (arith, later.0, same), later.1, later.2 ∙ same)

run_evicted :
    (arrivals : List Arrival) (a : FlowAssembler)
    → a.flows.evicted_count ≤ (run arrivals a).flows.evicted_count
unfolding run
run_evicted [] a = omega arith
run_evicted (x ∷ rest) a = omega (
  arith,
  run_evicted rest (process_packet_meta x.packet x.current_time x.now a).1,
  flows_after_evicted x.current_time x.now a.flows (usable x.packet),
  ap (λ (t : BoundedTable FlowKey Flow). t.evicted_count)
      (flows-process x.current_time x.now x.packet a),
)

-- Over a run that evicts no flow, a flow's packet count and byte count grow by exactly the packets
-- that arrive with its key and a protocol, and by their lengths; other packets count for nothing.
pub run_counts :
    (arrivals : List Arrival) (a : FlowAssembler) (k : FlowKey)
    → IsValid a.flows
    → (run arrivals a).flows.evicted_count ≡ a.flows.evicted_count
    → (packets k (run arrivals a).flows ≡ packets k a.flows + packets_of k arrivals)
      × (bytes k (run arrivals a).flows ≡ bytes k a.flows + bytes_of k arrivals)
unfolding run packets_of bytes_of
run_counts [] a k h same = omega arith
run_counts (x ∷ rest) a k h same =
    let a' = (process_packet_meta x.packet x.current_time x.now a).1 in
    let flows = flows-process x.current_time x.now x.packet a in
    let evicted = ap (λ (t : BoundedTable FlowKey Flow). t.evicted_count) flows in
    let unevicted : (flows_after (usable x.packet) x.current_time x.now a.flows).evicted_count
        ≡ a.flows.evicted_count =
      omega (
        arith,
        run_evicted rest a',
        flows_after_evicted x.current_time x.now a.flows (usable x.packet),
        evicted,
        same,
      ) in
    omega (
      arith,
      run_counts rest a' k (process-IsValid x.packet x.current_time x.now a h)
          (omega (arith, unevicted, evicted, same)),
      flows_after_counts x.current_time x.now a.flows k (usable x.packet) h unevicted,
      ap (packets k) flows,
      ap (bytes k) flows,
    )
