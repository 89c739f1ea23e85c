-- ===== src/Features/Scheduler/Counted.antt =====
-- The counters of the DDoS extractor over a run of packets: those since the last window of one second.
use sih.Features.Numbers.{Numbers}
use sih.Features.Ddos.{
  no_counts, sweep_ddos, update_ddos, Counters, is_protocol, count_meta, Packet,
}
use sih.Prelude.{
  ◌∙◌, subst, ap, of_branches, leb, arith, ◌++◌, ◌∷◌, [], List, some, none, Option, ◌&&◌, not,
  false, true, Bool, refl, ◌≡◌, String, ◌+◌, ℕ, if◌then◌else◌, nat_beq,
}
use sih.Features.Scheduler.{
  nothing_fired, start_windows, emit_60s_window, emit_5s_window, emit_1s_window, check_60s,
  check_5s, update_names, Fired, check_1s, update_flows, FeatureScheduler, check_windows,
  process_packet, update_handshakes, Windows, Digests,
}
use sih.Parsers.Packet.{Meta}
use sih.Features.Dns.{DnsParsed}
use sih.Parsers.Tls.{Handshake}
use sih.Prelude.Eq.{◌==◌, string_eq}

abbrev is_syn : Meta → Bool
is_syn m = is_protocol "TCP" m.protocol && nat_beq m.tcp_flags 2

abbrev is_syn_ack : Meta → Bool
is_syn_ack m = is_protocol "TCP" m.protocol && nat_beq m.tcp_flags 18

abbrev is_request : Meta → Bool
is_request m = is_protocol "UDP" m.protocol && nat_beq m.dst_port 53

abbrev is_response : Meta → Bool
is_response m = is_protocol "UDP" m.protocol && not (nat_beq m.dst_port 53) && nat_beq m.src_port 53

unfoldable pub number_of : (Meta → Bool) → List Meta → ℕ
number_of test [] = 0
number_of test (m ∷ metas) = (if test m then 1 else 0) + number_of test metas

unfoldable pub bytes_of : (Meta → Bool) → List Meta → ℕ
bytes_of test [] = 0
bytes_of test (m ∷ metas) = (if test m then m.ip_len else 0) + bytes_of test metas

-- What the packets of a window count to.
abbrev pub counts : List Meta → Counters
counts metas = record {
  syn_count = number_of is_syn metas;
  syn_ack_count = number_of is_syn_ack metas;
  amp_req_bytes = bytes_of is_request metas;
  amp_res_bytes = bytes_of is_response metas;
}

number_of-append :
    (test : Meta → Bool) (xs : List Meta) (m : Meta)
    → number_of test (xs ++ m ∷ []) ≡ number_of test xs + (if test m then 1 else 0)
unfolding number_of
number_of-append test [] m = omega arith
number_of-append test (x ∷ xs) m = omega (arith, number_of-append test xs m)

bytes_of-append :
    (test : Meta → Bool) (xs : List Meta) (m : Meta)
    → bytes_of test (xs ++ m ∷ []) ≡ bytes_of test xs + (if test m then m.ip_len else 0)
unfolding bytes_of
bytes_of-append test [] m = omega arith
bytes_of-append test (x ∷ xs) m = omega (arith, bytes_of-append test xs m)

not_both :
    (protocol : Option String)
    → is_protocol "TCP" protocol ≡ true
    → is_protocol "UDP" protocol ≡ false
not_both none h = refl
not_both (some protocol) h =
    ap (λ (text : String). text == "UDP") ((string_eq.beq_iff protocol "TCP").0 h)

count_meta-counts :
    (m : Meta) (metas : List Meta) → count_meta m (counts metas) ≡ counts (metas ++ m ∷ [])
unfolding count_meta
count_meta-counts m metas = ground (
  arith,
  not_both m.protocol,
  number_of-append is_syn metas m,
  number_of-append is_syn_ack metas m,
  bytes_of-append is_request metas m,
  bytes_of-append is_response metas m,
)

counts_if :
    (b : Bool) (c : Counters) (metas : List Meta)
    → c ≡ counts metas
    → (if b then no_counts else c) ≡ counts (if b then [] else metas)
unfolding number_of bytes_of
counts_if true c metas h = refl
counts_if false c metas h = h

-- A packet with its time and what the parsers read of it.
pub record Arrival : Type 0 where
  pub packet : Packet
  pub time : ℕ
  pub dns : Option DnsParsed
  pub tls : Option Handshake

abbrev pub is_some : {A : Type 0} → Option A → Bool
is_some none = false
is_some (some a) = true

module _ (nu : Numbers) (digests : Digests) (second : ℕ) (windows : Windows) where
  abbrev pub arrive : Arrival → FeatureScheduler nu → Fired nu × FeatureScheduler nu
  unfolding process_packet
  arrive a s = process_packet nu digests second windows a.packet a.time a.dns a.tls s

  unfoldable pub run : List Arrival → FeatureScheduler nu → FeatureScheduler nu
  run [] s = s
  run (a ∷ arrivals) s = run arrivals (arrive a s).1

  -- The packets after the last that fired the window of one second, where `metas` came before.
  unfoldable pub since_fired : List Arrival → List Meta → FeatureScheduler nu → List Meta
  since_fired [] metas s = metas
  since_fired (a ∷ arrivals) metas s =
      since_fired arrivals (if is_some (arrive a s).0.ddos then [] else metas ++ a.packet.meta ∷ [])
        (arrive a s).1

  counters-update_flows :
      (p : Packet) (now : ℕ) (s : FeatureScheduler nu)
      → (update_flows nu digests p now s).ddos.counters ≡ count_meta p.meta s.ddos.counters
  unfolding update_flows update_ddos count_meta
  counters-update_flows p now s = ground arith

  counters-updates :
      (p : Packet) (now : ℕ) (dns : Option DnsParsed) (tls : Option Handshake)
      (s : FeatureScheduler nu)
      → (update_handshakes nu p tls now
          (update_names nu windows dns now (update_flows nu digests p now s))).ddos.counters
        ≡ count_meta p.meta s.ddos.counters
  unfolding update_handshakes update_names
  counters-updates p now none none s = counters-update_flows p now s
  counters-updates p now none (some tls) s = counters-update_flows p now s
  counters-updates p now (some dns) none s = counters-update_flows p now s
  counters-updates p now (some dns) (some tls) s = counters-update_flows p now s

  -- The counters, by whether the window of one second fired.
  IsKept : Counters → Fired nu × FeatureScheduler nu → Type 0
  IsKept c checked = checked.1.ddos.counters ≡ (if is_some checked.0.ddos then no_counts else c)

  IsKept-check_1s :
      (m : Meta) (now : ℕ) (s : FeatureScheduler nu)
      → IsKept s.ddos.counters (check_1s nu windows m now (nothing_fired nu, s))
  unfolding IsKept check_1s emit_1s_window
  IsKept-check_1s m now s =
      of_branches
        (λ (checked : Fired nu × FeatureScheduler nu).
          checked.1.ddos.counters ≡ (if is_some checked.0.ddos then no_counts else s.ddos.counters))
        (leb (s.lasts.last_1s + windows.window_1s) now) _ _ (λ due. refl) (λ early. refl)

  IsKept-check_5s :
      (c : Counters) (now : ℕ) (checked : Fired nu × FeatureScheduler nu)
      → IsKept c checked
      → IsKept c (check_5s nu windows now checked)
  unfolding IsKept check_5s emit_5s_window
  IsKept-check_5s c now checked h =
      of_branches
        (λ (after : Fired nu × FeatureScheduler nu).
          after.1.ddos.counters ≡ (if is_some after.0.ddos then no_counts else c))
        (leb (checked.1.lasts.last_5s + windows.window_5s) now) _ _ (λ due. h) (λ early. h)

  IsKept-check_60s :
      (c : Counters) (m : Meta) (now : ℕ) (checked : Fired nu × FeatureScheduler nu)
      → IsKept c checked
      → IsKept c (check_60s nu digests second windows m now checked)
  unfolding IsKept check_60s emit_60s_window sweep_ddos
  IsKept-check_60s c m now checked h =
      of_branches
        (λ (after : Fired nu × FeatureScheduler nu).
          after.1.ddos.counters ≡ (if is_some after.0.ddos then no_counts else c))
        (leb (checked.1.lasts.last_60s + windows.window_60s) now) _ _ (λ due. h) (λ early. h)

  IsKept-arrive :
      (a : Arrival) (s : FeatureScheduler nu)
      → IsKept (count_meta a.packet.meta s.ddos.counters) (arrive a s)
  unfolding process_packet check_windows
  IsKept-arrive a s =
      let updated =
        update_handshakes nu a.packet a.tls a.time
          (update_names nu windows a.dns a.time (update_flows nu digests a.packet a.time s)) in
      let started = record updated { lasts = start_windows a.time updated.lasts } in
      let m = a.packet.meta in
      subst (λ (c : Counters). IsKept c (arrive a s))
        (counters-updates a.packet a.time a.dns a.tls s)
        (IsKept-check_60s _ m a.time _
          (IsKept-check_5s _ a.time _ (IsKept-check_1s m a.time started)))

  counters-arrive :
      (a : Arrival) (metas : List Meta) (s : FeatureScheduler nu)
      → s.ddos.counters ≡ counts metas
      → (arrive a s).1.ddos.counters
        ≡ counts (if is_some (arrive a s).0.ddos then [] else metas ++ a.packet.meta ∷ [])
  unfolding IsKept
  counters-arrive a metas s h =
      unfold IsKept in
      IsKept-arrive a s
      ∙ counts_if (is_some (arrive a s).0.ddos) _ (metas ++ a.packet.meta ∷ [])
          (ap (count_meta a.packet.meta) h ∙ count_meta-counts a.packet.meta metas)

  -- The counters of the DDoS extractor, after any run of packets from a state in which they count
  -- some packets: they count the packets since the window of one second last fired. The SYN and
  -- SYN-ACK counters are numbers of TCP packets with those flags, and the others the bytes of UDP
  -- packets to port 53, and of those from port 53 that are not also to it.
  pub counters-run :
      (arrivals : List Arrival) (metas : List Meta) (s : FeatureScheduler nu)
      → s.ddos.counters ≡ counts metas
      → (run arrivals s).ddos.counters ≡ counts (since_fired arrivals metas s)
  unfolding run since_fired
  counters-run [] metas s h = h
  counters-run (a ∷ arrivals) metas s h =
      counters-run arrivals _ (arrive a s).1 (counters-arrive a metas s h)
