-- ===== src/Features/Scheduler.antt =====
-- FeatureScheduler of features/scheduler.py: packets into the extractors, and the tumbling windows.
-- `current_time - last >= window` is written as a sum.
pub mod Timing
pub mod Counted
mod Tests
use sih.Features.Numbers.{Numbers}
use sih.Features.Ddos.{
  reset_window_counters, sweep_ddos, new_ddos, DdosFeatures, update_ddos, extract_ddos,
  DdosExtractor, Packet, is_protocol,
}
use sih.Features.Traffic.{
  ExfilFeatures, new_exfil, ExfilExtractor, new_recon, EncryptedFeatures, new_encrypted,
  EncryptedExtractor, update_exfil, extract_recon, extract_encrypted, extract_exfil, ReconFeatures,
  update_recon, update_encrypted, ReconExtractor,
}
use sih.Parsers.Tls.{Handshake}
use text.Mathlib.Text.{starts_with}
use sih.Prelude.{
  some, none, Option, ◌||◌, Bool, String, ◌*◌, ◌+◌, ℕ, if◌then◌else◌, nat_beq, leb, ltb,
}
use sih.Features.Beaconing.{
  BeaconingFeatures, update_beaconing, sweep_beaconing, new_beaconing, BeaconingExtractor,
  extract_beaconing,
}
use sih.Features.Dns.{
  new_dns_exfil, DnsExfilExtractor, DnsExfilFeatures, DgaFeatures, new_dga, DgaExtractor,
  extract_dns_exfil, update_dns_exfil, DnsParsed, extract_dga, update_dga,
}
use sih.Parsers.Packet.{Meta}

-- md5 of the seed and of the text of an item
pub record Digests : Type 0 where
  pub text : ℕ → String → ℕ
  pub port : ℕ → String × ℕ → ℕ
  pub host : ℕ → String × String → ℕ

pub record Windows : Type 0 where
  pub window_1s : ℕ
  pub window_5s : ℕ
  pub window_60s : ℕ

-- last_1s, last_5s and last_60s
pub record Lasts : Type 0 where
  pub last_1s : ℕ
  pub last_5s : ℕ
  pub last_60s : ℕ

abbrev is_outbound : String → Bool
is_outbound src = starts_with src "10." || starts_with src "192.168."

-- The first test of `_check_windows`: the first packet, or a clock that went back.
unfoldable pub start_windows : ℕ → Lasts → Lasts
start_windows now l =
    if nat_beq l.last_1s 0 || ltb now l.last_1s
    then record { last_1s = now; last_5s = now; last_60s = now }
    else l

module _ (nu : Numbers) where
  pub record FeatureScheduler : Type 0 where
    pub lasts : Lasts
    pub ddos : DdosExtractor nu
    pub beaconing : BeaconingExtractor nu
    pub dga : DgaExtractor nu
    pub encrypted : EncryptedExtractor nu
    pub recon : ReconExtractor
    pub exfil : ExfilExtractor nu
    pub dns_exfil : DnsExfilExtractor nu

  abbrev pub new_scheduler : FeatureScheduler
  new_scheduler = record {
    lasts = record { last_1s = 0; last_5s = 0; last_60s = 0 };
    ddos = new_ddos nu;
    beaconing = new_beaconing nu;
    dga = new_dga nu;
    encrypted = new_encrypted nu 10;
    recon = new_recon;
    exfil = new_exfil nu;
    dns_exfil = new_dns_exfil nu;
  }

  -- The dictionary `fired`, without its "type".
  pub record Fired : Type 0 where
    pub ddos : Option (DdosFeatures nu)
    pub recon : Option (ReconFeatures nu)
    pub dga : Option (DgaFeatures nu)
    pub encrypted : Option (EncryptedFeatures nu)
    pub dns_exfil : Option (DnsExfilFeatures nu)
    pub beaconing : Option (BeaconingFeatures nu)
    pub exfil : Option (ExfilFeatures nu)

  abbrev pub nothing_fired : Fired
  nothing_fired = record {
    ddos = none;
    recon = none;
    dga = none;
    encrypted = none;
    dns_exfil = none;
    beaconing = none;
    exfil = none;
  }

  -- The guarded updates of `process_packet` that every packet may make.
  unfoldable pub update_flows : Digests → Packet → ℕ → FeatureScheduler → FeatureScheduler
  unfolding update_ddos update_recon update_exfil update_beaconing
  update_flows digests p now s =
      let m = p.meta in
      let is_tcp = is_protocol "TCP" m.protocol in
      let is_counted = is_tcp || is_protocol "UDP" m.protocol || is_protocol "ICMP" m.protocol in
      record s {
        ddos = (if is_counted then update_ddos nu digests.text p now s.ddos else s.ddos);
        recon = (if is_tcp then update_recon digests.port digests.host m s.recon else s.recon);
        exfil =
            (if ltb 0 m.ip_len then update_exfil nu m (is_outbound m.src_ip) s.exfil else s.exfil);
        beaconing = update_beaconing nu digests.text m now s.beaconing;
      }

  unfoldable pub update_names : Windows → Option DnsParsed → ℕ → FeatureScheduler → FeatureScheduler
  unfolding update_dga update_dns_exfil
  update_names windows none now s = s
  update_names windows (some dns) now s =
      let is_new_minute = leb (s.lasts.last_60s + windows.window_60s) now in
      record s {
        dga = update_dga nu dns s.dga;
        dns_exfil = update_dns_exfil nu dns is_new_minute s.dns_exfil;
      }

  unfoldable pub update_handshakes :
      Packet → Option Handshake → ℕ → FeatureScheduler → FeatureScheduler
  unfolding update_encrypted
  update_handshakes p none now s = s
  update_handshakes p (some tls) now s = record s {
    encrypted = update_encrypted nu p.meta tls now s.encrypted;
  }

  unfoldable pub emit_1s_window :
      (src_ip dst_ip : String) → Fired → FeatureScheduler → Fired × FeatureScheduler
  unfolding extract_ddos extract_recon
  emit_1s_window src dst fired s = (
    record fired {
      ddos = some (extract_ddos nu dst s.ddos);
      recon = some (extract_recon nu s.recon);
    },
    record s { ddos = reset_window_counters nu s.ddos },
  )

  unfoldable pub emit_5s_window : Fired → FeatureScheduler → Fired × FeatureScheduler
  unfolding extract_dga extract_encrypted extract_dns_exfil
  emit_5s_window fired s = (
    record fired {
      dga = some (extract_dga nu s.dga);
      encrypted = some (extract_encrypted nu s.encrypted);
      dns_exfil = some (extract_dns_exfil nu s.dns_exfil);
    },
    s,
  )

  -- The times to live are 60 and 120 seconds, of which `second` is the number of ticks; the sweeps
  -- are for the time of the last window.
  unfoldable pub emit_60s_window :
      Digests
      → (second : ℕ) → (src_ip dst_ip : String) → Fired
      → FeatureScheduler
      → Fired × FeatureScheduler
  unfolding extract_beaconing extract_exfil sweep_ddos sweep_beaconing
  emit_60s_window digests second src dst fired s = (
    record fired {
      beaconing = some (extract_beaconing nu digests.text src dst s.beaconing);
      exfil = some (extract_exfil nu s.exfil);
    },
    record s {
      ddos = sweep_ddos nu s.lasts.last_60s (60 * second) s.ddos;
      beaconing = sweep_beaconing nu s.lasts.last_60s (120 * second) s.beaconing;
    },
  )

  abbrev set_last_1s : ℕ → Fired × FeatureScheduler → Fired × FeatureScheduler
  set_last_1s now (fired, s) = (fired, record s { lasts = record s.lasts { last_1s = now } })

  abbrev set_last_5s : ℕ → Fired × FeatureScheduler → Fired × FeatureScheduler
  set_last_5s now (fired, s) = (fired, record s { lasts = record s.lasts { last_5s = now } })

  abbrev set_last_60s : ℕ → Fired × FeatureScheduler → Fired × FeatureScheduler
  set_last_60s now (fired, s) = (fired, record s { lasts = record s.lasts { last_60s = now } })

  unfoldable pub check_1s : Windows → Meta → ℕ → Fired × FeatureScheduler → Fired × FeatureScheduler
  unfolding emit_1s_window
  check_1s windows m now (fired, s) =
      if leb (s.lasts.last_1s + windows.window_1s) now
      then set_last_1s now (emit_1s_window m.src_ip m.dst_ip fired s)
      else (fired, s)

  unfoldable pub check_5s : Windows → ℕ → Fired × FeatureScheduler → Fired × FeatureScheduler
  unfolding emit_5s_window
  check_5s windows now (fired, s) =
      if leb (s.lasts.last_5s + windows.window_5s) now
      then set_last_5s now (emit_5s_window fired s)
      else (fired, s)

  unfoldable pub check_60s :
      Digests
      → (second : ℕ) → Windows
      → Meta
      → ℕ
      → Fired × FeatureScheduler
      → Fired × FeatureScheduler
  unfolding emit_60s_window
  check_60s digests second windows m now (fired, s) =
      if leb (s.lasts.last_60s + windows.window_60s) now
      then set_last_60s now (emit_60s_window digests second m.src_ip m.dst_ip fired s)
      else (fired, s)

  unfoldable pub check_windows :
      Digests → (second : ℕ) → Windows → Meta → ℕ → FeatureScheduler → Fired × FeatureScheduler
  unfolding start_windows check_1s check_5s check_60s
  check_windows digests second windows m now s =
      let started = record s { lasts = start_windows now s.lasts } in
      check_60s digests second windows m now
        (check_5s windows now (check_1s windows m now (nothing_fired, started)))

  unfoldable pub process_packet :
      Digests
      → (second : ℕ) → Windows
      → Packet
      → ℕ
      → Option DnsParsed
      → Option Handshake
      → FeatureScheduler
      → Fired × FeatureScheduler
  unfolding update_flows update_names update_handshakes check_windows
  process_packet digests second windows p now dns tls s =
      check_windows digests second windows p.meta now
        (update_handshakes p tls now (update_names windows dns now (update_flows digests p now s)))
