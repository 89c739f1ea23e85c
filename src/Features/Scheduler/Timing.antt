-- ===== src/Features/Scheduler/Timing.antt =====
-- When the windows of the scheduler fire.
use sih.Features.Numbers.{Numbers}
use sih.Features.Ddos.{Packet}
use sih.Prelude.{arith, some, none, Option, refl, ◌≡◌, ◌<◌, ◌≤◌, ◌+◌, ℕ, if◌then◌else◌, leb}
use sih.Features.Scheduler.{
  process_packet, nothing_fired, start_windows, update_flows, FeatureScheduler, Fired,
  emit_1s_window, update_names, emit_60s_window, emit_5s_window, check_1s, update_handshakes,
  check_windows, check_5s, check_60s, Windows, Digests,
}
use sih.Parsers.Packet.{Meta}
use sih.Features.Dns.{DnsParsed}
use sih.Parsers.Tls.{Handshake}

-- The time of the last window, by the test that fires it.
abbrev fired_at : (now last window : ℕ) → ℕ
fired_at now last window = if leb (last + window) now then now else last

fired_at_within : (now last window : ℕ) → 1 ≤ window → now < fired_at now last window + window
fired_at_within now last window h = ground arith

module _ (nu : Numbers) (digests : Digests) (second : ℕ) (windows : Windows) where
  lasts-check_1s :
      (m : Meta) (now : ℕ) (fired : Fired nu) (s : FeatureScheduler nu)
      → (check_1s nu windows m now (fired, s)).1.lasts
        ≡ record s.lasts { last_1s = fired_at now s.lasts.last_1s windows.window_1s }
  unfolding check_1s emit_1s_window
  lasts-check_1s m now fired s = ground arith

  lasts-check_5s :
      (now : ℕ) (fired : Fired nu) (s : FeatureScheduler nu)
      → (check_5s nu windows now (fired, s)).1.lasts
        ≡ record s.lasts { last_5s = fired_at now s.lasts.last_5s windows.window_5s }
  unfolding check_5s emit_5s_window
  lasts-check_5s now fired s = ground arith

  lasts-check_60s :
      (m : Meta) (now : ℕ) (fired : Fired nu) (s : FeatureScheduler nu)
      → (check_60s nu digests second windows m now (fired, s)).1.lasts
        ≡ record s.lasts { last_60s = fired_at now s.lasts.last_60s windows.window_60s }
  unfolding check_60s emit_60s_window
  lasts-check_60s m now fired s = ground arith

  -- The updates before the windows leave the times alone.
  lasts-updates :
      (p : Packet) (now : ℕ) (dns : Option DnsParsed) (tls : Option Handshake)
      (s : FeatureScheduler nu)
      → (update_handshakes nu p tls now
          (update_names nu windows dns now (update_flows nu digests p now s))).lasts
        ≡ s.lasts
  unfolding update_handshakes update_names update_flows
  lasts-updates p now none none s = refl
  lasts-updates p now none (some tls) s = refl
  lasts-updates p now (some dns) none s = refl
  lasts-updates p now (some dns) (some tls) s = refl

  lasts-check_windows :
      (m : Meta) (now : ℕ) (s : FeatureScheduler nu)
      → let l = start_windows now s.lasts in
        (check_windows nu digests second windows m now s).1.lasts ≡ record {
          last_1s = fired_at now l.last_1s windows.window_1s;
          last_5s = fired_at now l.last_5s windows.window_5s;
          last_60s = fired_at now l.last_60s windows.window_60s;
        }
  unfolding check_windows
  lasts-check_windows m now s =
      let started = record s { lasts = start_windows now s.lasts } in
      let a = check_1s nu windows m now (nothing_fired nu, started) in
      let b = check_5s nu windows now a in
      ground (
        arith,
        lasts-check_1s m now (nothing_fired nu) started,
        lasts-check_5s now a.0 a.1,
        lasts-check_60s m now b.0 b.1,
      )

  -- With windows of at least one tick, after any packet, whatever the clock did before: no window is
  -- overdue, that is, less than a window has passed since the last one of each length; and the last
  -- window of one second is not in the future.
  pub process_packet_timely :
      (p : Packet) (now : ℕ) (dns : Option DnsParsed) (tls : Option Handshake)
      (s : FeatureScheduler nu)
      → (1 ≤ windows.window_1s) × (1 ≤ windows.window_5s) × (1 ≤ windows.window_60s)
      → let l = (process_packet nu digests second windows p now dns tls s).1.lasts in
        (l.last_1s ≤ now)
        × (now < l.last_1s + windows.window_1s)
        × (now < l.last_5s + windows.window_5s)
        × (now < l.last_60s + windows.window_60s)
  unfolding process_packet start_windows
  process_packet_timely p now dns tls s h =
      let updated =
        update_handshakes nu p tls now
          (update_names nu windows dns now (update_flows nu digests p now s)) in
      let l = start_windows now updated.lasts in
      ground (
        arith,
        lasts-check_windows p.meta now updated,
        fired_at_within now l.last_1s windows.window_1s h.0,
        fired_at_within now l.last_5s windows.window_5s h.1,
        fired_at_within now l.last_60s windows.window_60s h.2,
      )
