-- ===== src/Alerting/ClickHouse/Tests.antt =====
-- The ClickHouse store at concrete calls.
use sih.Alerting.ClickHouse.Delivery.{
  delivered-run_new, close_delivers, alerts_of, StoreCall, run, appended, round,
}
use sih.Alerting.Schema.{AlertRecord, high, low, Severity}
use sih.Prelude.{map, ◌++◌, ◌∷◌, [], List, some, none, Option, false, true, refl, ◌≡◌, String, ℕ}
use sih.Alerting.ClickHouse.{
  ClickHouseAlertStore, insert_rows, flush_pending, get_summary, append, writer_round, flush,
  row_of, rows_where, new_store, close, rows_of, read_alerts,
}
use sih.Alerting.ClickHouse.Summary.{get_summary-IsSummary, IsSummary}
use sih.Prelude.Sort.{sort_by}

abbrev alert : String → ℕ → Option ℕ → Severity → AlertRecord ℕ ℕ
alert id time port severity = record {
  alert_id = id;
  timestamp = time;
  detector = "ddos";
  flow_id = record {
    src_ip = "x";
    dst_ip = "y";
    src_port = port;
    dst_port = port;
    protocol = "TCP";
  };
  threat_class = "DDOS";
  severity = severity;
  confidence_score = 80;
  evidence = record { features = []; explanation = 0; window_start = none; window_end = none };
  related_alert_ids = [];
}

-- The first insert raises, so its alerts are tried again; "b" has no ports.
abbrev events : List (StoreCall ℕ ℕ)
events =
    appended true (alert "a" 10 (some 80) high)
    ∷ appended false (alert "b" 20 none high)
    ∷ round false
    ∷ appended true (alert "c" 30 (some 53) low)
    ∷ appended true (alert "d" 40 (some 53) low)
    ∷ []

delivered-run_new_example :
    (run events (new_store true 2)).table ++ rows_of (run events (new_store true 2)).pending
    ≡ rows_of (alerts_of events)
delivered-run_new_example = delivered-run_new true 2 events

close_delivers_example :
    ((close true (run events (new_store true 2))).pending ≡ [])
    × ((close true (run events (new_store true 2))).table ≡ rows_of (alerts_of events))
close_delivers_example = close_delivers 2 events

get_summary-IsSummary_example : IsSummary ("DDOS" ∷ "DDOS" ∷ []) ("x" ∷ "x" ∷ []) (
    get_summary true (record {
      batch_size = 2;
      connected = true;
      pending = [];
      table = rows_of (alert "a" 10 (some 80) high ∷ alert "c" 30 (some 53) low ∷ []);
      stopped = false;
    }))
unfolding rows_of row_of
get_summary-IsSummary_example =
    get_summary-IsSummary
      (record {
        batch_size = 2;
        connected = true;
        pending = [];
        table = rows_of (alert "a" 10 (some 80) high ∷ alert "c" 30 (some 53) low ∷ []);
        stopped = false;
      })
      refl

closed_store : ClickHouseAlertStore ℕ ℕ
unfolding run flush writer_round append flush_pending insert_rows rows_of row_of close
closed_store = close true (run events (new_store true 2))

ids : map (λ row. row.alert_id) closed_store.table ≡ "a" ∷ "c" ∷ "d" ∷ []
unfolding closed_store
ids = refl

newest : map (λ row. row.alert_id) (read_alerts true 1 (some low) closed_store) ≡ "d" ∷ []
unfolding closed_store read_alerts rows_where sort_by
newest = refl
