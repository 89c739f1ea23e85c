-- ===== src/Assembler/Counts.antt =====
-- What FlowAssembler counts, packet by packet and over a run.
use sih.Prelude.{ℕ, ◌+◌, ◌≤◌, ◌≡◌, ◌∙◌, String, Option, none, some, true, arith, if◌then◌else◌}
use sih.Dict.{lookup}
use sih.Dict.Laws.{lookup-put, Distinct-put, length-put_old}
use sih.Parsers.Packet.{Meta}
use sih.Assembler.{
  FlowKey, Flow, key_eq, key_beq, key_beq_iff, make_5tuple, flow_factory, count_packet, add_packet,
}
use sih.Assembler.Table.{Entry, BoundedTable, get_or_create}
use sih.Assembler.Table.Bounds.{max_size-get_or_create, IsValid, get_or_create-IsValid}
use sih.Assembler.Table.Entries.{
  evicts, lookup-get_or_create, get_or_create_entry, get_or_create_evicted,
}

-- The packets and the bytes that a table has counted for a key; 0 where it has no entry.
unfoldable pub packets : FlowKey → BoundedTable FlowKey Flow → ℕ
packets k t = elim (lookup k t.table) [ none ↦ 0 | some flow ↦ flow.fields.packet_count ]

unfoldable pub bytes : FlowKey → BoundedTable FlowKey Flow → ℕ
bytes k t = elim (lookup k t.table) [ none ↦ 0 | some flow ↦ flow.fields.byte_count ]

module _ (m : Meta) (p : String) (current_time : Option ℕ) (now : ℕ)
    (t : BoundedTable FlowKey Flow) where
  abbrev created : Entry Flow × BoundedTable FlowKey Flow
  created = get_or_create (make_5tuple m p) (flow_factory m p) current_time now t

  created_there : IsValid t → lookup (make_5tuple m p) created.1.table ≡ some created.0
  created_there h =
      lookup-get_or_create (make_5tuple m p) (make_5tuple m p) (flow_factory m p) current_time now t
        h
      ∙ ground (arith, key_beq_iff (make_5tuple m p) (make_5tuple m p))

  -- A packet leaves at most `max_size` flows, no key twice.
  pub max_size-add_packet : IsValid t → (add_packet m p current_time now t).1.max_size ≡ t.max_size
  unfolding add_packet
  max_size-add_packet h =
      max_size-get_or_create (make_5tuple m p) (flow_factory m p) current_time now t h

  pub add_packet-IsValid : IsValid t → IsValid (add_packet m p current_time now t).1
  unfolding add_packet
  add_packet-IsValid h =
      let valid = get_or_create-IsValid (make_5tuple m p) (flow_factory m p) current_time now t h in
      record {
        positive = valid.positive;
        bounded = omega (
          arith,
          valid.bounded,
          length-put_old (make_5tuple m p) (count_packet m created.0) created.1.table
              (created_there h),
        );
        distinct =
            Distinct-put (make_5tuple m p) (count_packet m created.0) created.1.table
              valid.distinct;
      }

  lookup-add_packet :
      (j : FlowKey)
      → IsValid t
      → lookup j (add_packet m p current_time now t).1.table ≡ (
          if key_beq (make_5tuple m p) j
          then some (count_packet m created.0)
          else if evicts (make_5tuple m p) j t
          then none
          else lookup j t.table)
  unfolding add_packet
  lookup-add_packet j h = ground (
    arith,
    lookup-put (make_5tuple m p) j (count_packet m created.0) created.1.table,
    lookup-get_or_create (make_5tuple m p) j (flow_factory m p) current_time now t h,
  )

  -- In a valid table a packet adds one to the packet count of its key and its length to the byte
  -- count, where a key with no entry counts from 0. The flow that it evicts, if any, reads 0 again,
  -- and every other flow keeps both counts.
  packets-add_packet :
      (j : FlowKey)
      → IsValid t
      → (packets j (add_packet m p current_time now t).1 ≡ (
          if key_beq (make_5tuple m p) j
          then packets j t + 1
          else if evicts (make_5tuple m p) j t
          then 0
          else packets j t))
        × (bytes j (add_packet m p current_time now t).1 ≡ (
            if key_beq (make_5tuple m p) j
            then bytes j t + m.ip_len
            else if evicts (make_5tuple m p) j t
            then 0
            else bytes j t))
  unfolding packets bytes count_packet flow_factory
  packets-add_packet j h = grind (
    arith,
    lookup-add_packet j h,
    get_or_create_entry (make_5tuple m p) (flow_factory m p) current_time now t,
    key_beq_iff (make_5tuple m p) j,
  )

  add_packet_evicted :
      (j : FlowKey)
      → (t.evicted_count ≤ (add_packet m p current_time now t).1.evicted_count)
        × (evicts (make_5tuple m p) j t ≡ true
            → (add_packet m p current_time now t).1.evicted_count ≡ t.evicted_count + 1)
  unfolding add_packet
  add_packet_evicted j =
      get_or_create_evicted (make_5tuple m p) j (flow_factory m p) current_time now t

  pub evicted-add_packet-le : t.evicted_count ≤ (add_packet m p current_time now t).1.evicted_count
  evicted-add_packet-le = (add_packet_evicted (make_5tuple m p)).0

  -- A packet that evicts nothing adds itself to the flow of its key, and to no other.
  pub add_packet_counts :
      (j : FlowKey)
      → IsValid t
      → (add_packet m p current_time now t).1.evicted_count ≡ t.evicted_count
      → (packets j (add_packet m p current_time now t).1
          ≡ packets j t + (if key_beq (make_5tuple m p) j then 1 else 0))
        × (bytes j (add_packet m p current_time now t).1
            ≡ bytes j t + (if key_beq (make_5tuple m p) j then m.ip_len else 0))
  add_packet_counts j h same = ground (arith, packets-add_packet j h, (add_packet_evicted j).1)
