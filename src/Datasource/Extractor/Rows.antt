-- ===== src/Datasource/Extractor/Rows.antt =====
-- The rows of the flows, their labels, and extract_features of datasource/feature_extractor.py. A row
-- of nfstream is a parameter, and so are `round` and the writing of the CSV.
use sih.Prelude.Eq.{nat_eq, string_eq, pair_eq}
use sih.Features.Numbers.{Numbers}
use sih.Prelude.{
  map, ◌∷◌, [], List, Option, ◌&&◌, String, ◌-◌, ◌+◌, ℕ, length, if◌then◌else◌, nat_beq, ltb,
}
use sih.Datasource.Extractor.{IpPacket, collect_flows, Key, FlowStats}

-- The columns of a row that a label or a reader takes, and the others by name.
pub record FlowRow (F : Type 0) : Type 0 where
  pub src_ip : String
  pub dst_ip : String
  pub src_port : ℕ
  pub dst_port : ℕ
  pub protocol : String
  pub timestamp : ℕ
  pub pkt_count : ℕ
  pub byte_count : ℕ
  pub columns : List (String × F)
  pub attack_family : String
  pub severity : String
  pub generator : String

module _ (nu : Numbers) (round : ℕ → Numbers.F nu → Numbers.F nu) where
  open nu use {F, int, tenths, plus, minus, times, over, negated, sqrt, log2, lt}

  unfoldable pub sum_of : F → List F → F
  sum_of total [] = total
  sum_of total (x ∷ xs) = sum_of (plus total x) xs

  abbrev count_f : List F → F
  count_f xs = int (length xs)

  abbrev or_mean : List F → F
  unfolding sum_of
  or_mean [] = int 0
  or_mean (x ∷ xs) = over (sum_of (int 0) (x ∷ xs)) (count_f (x ∷ xs))

  abbrev squares : F → List F → List F
  squares mean xs = map (λ x. times (minus x mean) (minus x mean)) xs

  unfoldable pub std_of : F → List F → F
  unfolding sum_of
  std_of mean xs =
      if ltb 1 (length xs)
      then sqrt (over (sum_of (int 0) (squares mean xs)) (count_f xs))
      else int 0

  -- min(xs, default=0.0), max(xs, default=0.0)
  unfoldable pub least : F → List F → F
  least a [] = a
  least a (x ∷ xs) = least (if lt x a then x else a) xs

  unfoldable pub greatest : F → List F → F
  greatest a [] = a
  greatest a (x ∷ xs) = greatest (if lt a x then x else a) xs

  abbrev min_or_zero : List F → F
  unfolding least
  min_or_zero [] = int 0
  min_or_zero (x ∷ xs) = least x xs

  abbrev max_or_zero : List F → F
  unfolding greatest
  max_or_zero [] = int 0
  max_or_zero (x ∷ xs) = greatest x xs

  -- The terms of `_entropy` for the values over 0, and its guards.
  unfoldable pub entropy_terms : ℕ → F → List ℕ → F
  entropy_terms total sum [] = sum
  entropy_terms total sum (v ∷ values) =
      let p = over (int v) (int total) in
      entropy_terms total (if ltb 0 v && lt (int 0) p then plus sum (times p (log2 p)) else sum)
        values

  unfoldable pub total_of : List ℕ → ℕ
  total_of [] = 0
  total_of (v ∷ values) = v + total_of values

  unfoldable pub flow_entropy : List ℕ → F
  unfolding entropy_terms total_of
  flow_entropy values =
      if nat_beq (total_of values) 0
      then int 0
      else negated (entropy_terms (total_of values) (int 0) values)

  abbrev query_len : List ℕ → F
  unfolding total_of
  query_len [] = int 0
  query_len (n ∷ lens) = round 1 (over (int (total_of (n ∷ lens))) (int (length (n ∷ lens))))

  abbrev or_one_at_least : ℕ → ℕ
  or_one_at_least n = if ltb 1 n then n else 1

  -- max(t_end - t_start, 0.001), in milliseconds
  abbrev duration_ms : FlowStats nu → ℕ
  duration_ms f = or_one_at_least (f.t_end - f.t_start)

  unfoldable pub row_of_flow : Key × FlowStats nu → FlowRow F
  unfolding or_mean std_of min_or_zero max_or_zero flow_entropy query_len
  row_of_flow (((src_ip, dst_ip), ((sport, dport), proto)), f) =
      let dur_s = over (int (duration_ms f)) (int 1000) in
      let mean_iat = or_mean f.iats in
      record {
        src_ip = src_ip;
        dst_ip = dst_ip;
        src_port = sport;
        dst_port = dport;
        protocol = proto;
        timestamp = f.t_start;
        pkt_count = f.pkts;
        byte_count = f.size_sum;
        columns =
            ("duration_s", round 4 dur_s)
            ∷ ("pkts_per_sec", round 2 (over (int f.pkts) dur_s))
            ∷ ("bytes_per_sec", round 2 (over (int f.size_sum) dur_s))
            ∷ ("avg_pkt_size", round 2 (over (int f.size_sum) (int (or_one_at_least f.pkts))))
            ∷ ("iat_mean_ms", round 3 mean_iat)
            ∷ ("iat_std_ms", round 3 (std_of mean_iat f.iats))
            ∷ ("iat_min_ms", round 3 (min_or_zero f.iats))
            ∷ ("iat_max_ms", round 3 (max_or_zero f.iats))
            ∷ ("syn_count", int f.syn)
            ∷ ("ack_count", int f.ack)
            ∷ ("fin_count", int f.fin)
            ∷ ("rst_count", int f.rst)
            ∷ ("syn_synack_ratio", round 3 (over (int f.syn) (int (or_one_at_least f.ack))))
            ∷ ("dns_query_len", query_len f.dns_lens)
            ∷ ("dns_entropy", round 3 (flow_entropy f.dns_lens))
            ∷ [];
        attack_family = "BENIGN";
        severity = "LOW";
        generator = "scapy";
      }

  unfoldable pub extract_scapy : List (Option IpPacket) → List (FlowRow F)
  unfolding collect_flows row_of_flow
  extract_scapy packets = map row_of_flow (collect_flows nu packets [])
