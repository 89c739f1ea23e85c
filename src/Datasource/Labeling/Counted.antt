-- ===== src/Datasource/Labeling/Counted.antt =====
-- That no packet of a capture is lost, and none is counted twice, on the way to the rows.
use sih.Datasource.Extractor.{tcp, udp, neither, add_name, count_tcp_flags, Layer4}
use sih.Prelude.Eq.{nat_eq, string_eq, pair_eq}
use sih.Prelude.{
  Bool, String, length, ◌++◌, ◌∙◌, if◌then◌else◌, ltb, ℕ, ◌+◌, ◌≡◌, refl, arith, Option, none, some,
  List, [], ◌∷◌, map,
}
use sih.Features.Numbers.{Numbers}
use sih.Datasource.Extractor.{
  flow_or_new, key_of, add_to_flow, Key, new_flow, IpPacket, FlowStats, collect_flows,
}
use sih.Dict.Laws.{sum_values-put, sum_values}
use sih.Dict.{lookup, put}
use sih.Datasource.Extractor.Rows.{row_of_flow, extract_scapy, FlowRow}
use sih.Datasource.Labeling.{
  Labeled, LabelKey, label_map, label_rows, label_one, pick_backend, Sidecar, extract_features,
  apply_labels,
}
use sih.Datasource.Labeling.Kept.{label_one_same, label_one_same}

module _ {ℓ} {A : Type ℓ} where
  abbrev pub sum_over : (A → ℕ) → List A → ℕ
  sum_over f [] = 0
  sum_over f (x ∷ xs) = f x + sum_over f xs

  -- The packets with an IP layer.
  abbrev pub present : List (Option A) → List A
  present [] = []
  present (none ∷ xs) = present xs
  present (some x ∷ xs) = x ∷ present xs

ones : {A : Type 0} (xs : List A) → sum_over (λ x. 1) xs ≡ length xs
ones [] = refl
ones (x ∷ xs) = omega (arith, ones xs)

module _ {ℓ κ} {A : Type ℓ} {B : Type κ} where
  sum_over-map :
      (f : B → ℕ) (g : A → B) (h : A → ℕ)
      → ((x : A) → f (g x) ≡ h x)
      → (xs : List A) → sum_over f (map g xs) ≡ sum_over h xs
  sum_over-map f g h same [] = refl
  sum_over-map f g h same (x ∷ xs) = omega (arith, same x, sum_over-map f g h same xs)

module _ (nu : Numbers) where
  open nu use {F, int, minus}

  -- A quantity of a flow that each packet adds to.
  record Adds (f : FlowStats nu → ℕ) (g : IpPacket → ℕ) : Type 0 where
    new : (ts : ℕ) → f (new_flow nu ts) ≡ 0
    more : (p : IpPacket) (s : FlowStats nu) → f (add_to_flow nu p s) ≡ f s + g p

  add_name-counts :
      (q : Option ℕ) (s : FlowStats nu)
      → ((add_name nu q s).pkts ≡ s.pkts) × ((add_name nu q s).size_sum ≡ s.size_sum)
  add_name-counts none s = (refl, refl)
  add_name-counts (some n) s = (refl, refl)

  count_tcp_flags-counts :
      (l : Layer4) (s : FlowStats nu)
      → ((count_tcp_flags nu l s).pkts ≡ s.pkts) × ((count_tcp_flags nu l s).size_sum ≡ s.size_sum)
  count_tcp_flags-counts (tcp sport dport flags) s = (refl, refl)
  count_tcp_flags-counts (udp sport dport) s = (refl, refl)
  count_tcp_flags-counts neither s = (refl, refl)

  add_to_flow-counts :
      (p : IpPacket) (s : FlowStats nu)
      → ((add_to_flow nu p s).pkts ≡ s.pkts + 1)
        × ((add_to_flow nu p s).size_sum ≡ s.size_sum + p.size)
  unfolding add_to_flow
  add_to_flow-counts p s =
      let counted : FlowStats nu = record s {
        iats = (if ltb 0 s.pkts then s.iats ++ minus (int p.time) (int s.prev_ts) ∷ [] else s.iats);
        prev_ts = p.time;
        t_end = (if ltb s.t_end p.time then p.time else s.t_end);
        pkts = s.pkts + 1;
        size_sum = s.size_sum + p.size;
      } in
      let flags = count_tcp_flags-counts p.layer counted in
      let name = add_name-counts p.qname (count_tcp_flags nu p.layer counted) in
      (name.0 ∙ flags.0, name.1 ∙ flags.1)

  sum_values-collect_flows :
      {f : FlowStats nu → ℕ} {g : IpPacket → ℕ}
      → Adds f g
      → (packets : List (Option IpPacket)) (flows : List (Key × FlowStats nu))
      → sum_values f (collect_flows nu packets flows)
        ≡ sum_over g (present packets) + sum_values f flows
  unfolding collect_flows
  sum_values-collect_flows a [] flows = omega arith
  sum_values-collect_flows a (none ∷ packets) flows = sum_values-collect_flows a packets flows
  sum_values-collect_flows {f} {g} a (some p ∷ packets) flows =
      let key = key_of p in
      ground (
        arith,
        sum_values-collect_flows a packets
            (put key (add_to_flow nu p (flow_or_new nu p.time (lookup key flows))) flows),
        sum_values-put f key (add_to_flow nu p (flow_or_new nu p.time (lookup key flows))) flows,
        a.more p (flow_or_new nu p.time (lookup key flows)),
        a.new p.time,
      )

  pkts-Adds : Adds (λ s. s.pkts) (λ p. 1)
  pkts-Adds = record { new = λ ts. refl; more = λ p s. (add_to_flow-counts p s).0 }

  size_sum-Adds : Adds (λ s. s.size_sum) (λ p. p.size)
  size_sum-Adds = record { new = λ ts. refl; more = λ p s. (add_to_flow-counts p s).1 }

  -- The packets and the bytes of the rows are those of the packets.
  unfoldable pub CountsAll : List (Option IpPacket) → List (FlowRow F) → Type 0
  CountsAll packets rows =
      (sum_over (λ r. r.pkt_count) rows ≡ length (present packets))
      × (sum_over (λ r. r.byte_count) rows ≡ sum_over (λ p. p.size) (present packets))

  module _ (round : ℕ → F → F) where
    sum_over-rows :
        (column : FlowRow F → ℕ) (f : FlowStats nu → ℕ)
        → ((e : Key × FlowStats nu) → column (row_of_flow nu round e) ≡ f e.1)
        → (flows : List (Key × FlowStats nu))
        → sum_over column (map (row_of_flow nu round) flows) ≡ sum_values f flows
    unfolding sum_values
    sum_over-rows column f same [] = refl
    sum_over-rows column f same (e ∷ flows) =
        omega (arith, same e, sum_over-rows column f same flows)

    extract_scapy-CountsAll :
        (packets : List (Option IpPacket)) → CountsAll packets (extract_scapy nu round packets)
    unfolding extract_scapy CountsAll sum_values
    extract_scapy-CountsAll packets =
        let flows = collect_flows nu packets [] in
        (
          sum_over-rows (λ r. r.pkt_count) (λ s. s.pkts) (λ e. refl) flows
              ∙ sum_values-collect_flows pkts-Adds packets []
              ∙ omega (arith, ones (present packets)),
          sum_over-rows (λ r. r.byte_count) (λ s. s.size_sum) (λ e. refl) flows
              ∙ sum_values-collect_flows size_sum-Adds packets []
              ∙ omega arith,
        )

    module _ (family_of : String → String) (is_dga : String → Bool) where
      label_rows-CountsAll :
          (packets : List (Option IpPacket)) (rows : List (FlowRow F)) (side : Sidecar)
          (labels : Option (List (LabelKey × Labeled)))
          → CountsAll packets rows
          → CountsAll packets (label_rows family_of is_dga side labels rows)
      unfolding CountsAll label_rows
      label_rows-CountsAll packets rows side none h = h
      label_rows-CountsAll packets rows side (some labels) h =
          let same = label_one_same family_of is_dga side labels in
          let label = label_one family_of is_dga side labels in
          (
            sum_over-map (λ r. r.pkt_count) label (λ r. r.pkt_count) (λ r. (same r).3) rows ∙ h.0,
            sum_over-map (λ r. r.byte_count) label (λ r. r.byte_count) (λ r. (same r).4) rows ∙ h.1,
          )

      label-CountsAll :
          (packets : List (Option IpPacket)) (rows : List (FlowRow F)) (side : Option Sidecar)
          → CountsAll packets rows
          → CountsAll packets (apply_labels family_of is_dga side rows)
      unfolding apply_labels
      label-CountsAll packets rows none h = h
      label-CountsAll packets rows (some side) h =
          label_rows-CountsAll packets rows side (label_map side.entries []) h

      -- Where the backend that is picked is scapy, with any sidecar or none: the packet counts of the
      -- rows add up to the number of packets that have an IP layer, and the byte counts to their sizes.
      pub extract_features-CountsAll :
          (have_nfstream : Bool) (nfstream_rows : List (FlowRow F)) (backend : String)
          (packets : List (Option IpPacket)) (label_path : Option (Option Sidecar))
          → pick_backend have_nfstream backend ≡ "scapy"
          → CountsAll packets (
              extract_features nu round family_of is_dga have_nfstream nfstream_rows backend packets
                label_path)
      unfolding extract_features
      extract_features-CountsAll have_nfstream nfstream_rows backend packets none picked =
          rw picked (extract_scapy-CountsAll packets)
      extract_features-CountsAll have_nfstream nfstream_rows backend packets (some side) picked =
          rw picked (
            label-CountsAll packets (extract_scapy nu round packets) side
              (extract_scapy-CountsAll packets))
