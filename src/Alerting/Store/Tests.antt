-- ===== src/Alerting/Store/Tests.antt =====
-- The store at concrete writes.
use mathlib.Core.Option
use sih.Prelude.Eq.{◌==◌, string_eq}
use sih.Alerting.Schema.{AlertRecord, Severity, low, high}
use sih.Alerting.Store.Batching.{reads-write_all, written, Write, write_all, add, add_batch}
use sih.Prelude.{
  if◌then◌else◌, map, ◌∷◌, [], List, some, none, Option, false, true, refl, ◌≡◌, String, ℕ,
}
use sih.Alerting.Store.{
  place, order_by, where_rows, select_page, read_alerts_paginated, dispatch, find_id,
  get_alert_by_id, insert_or_ignore, write_records, insert_all, append_batch, select_alerts, append,
  new_store, flush, AlertStore, read_alerts,
}
use sih.Alerting.Store.Upkeep.{summary_stats, get_summary_stats, SummaryStats}
use sih.Dict.Laws.{first}
use sih.Alerting.Store.Lookup.{get_alert_by_id-append}

abbrev alert : String → ℕ → Severity → AlertRecord ℕ ℕ
alert id time severity = record {
  alert_id = id;
  timestamp = time;
  detector = "ddos";
  flow_id = record {
    src_ip = "x";
    dst_ip = "y";
    src_port = none;
    dst_port = none;
    protocol = "TCP";
  };
  threat_class = "DDOS";
  severity = severity;
  confidence_score = 80;
  evidence = record { features = []; explanation = 0; window_start = none; window_end = none };
  related_alert_ids = [];
}

-- The second "a" is ignored, and "d" stays in the buffer until the read.
abbrev writes : List (Write ℕ ℕ)
writes =
    add (alert "b" 20 high)
    ∷ add_batch (alert "a" 30 low ∷ alert "a" 1 high ∷ [])
    ∷ add (alert "d" 5 high)
    ∷ []

abbrev filled : AlertStore ℕ ℕ
unfolding write_all
filled = write_all writes (new_store 2 (some "http://hook"))

program : Unit {0}
unfolding filled write_all append append_batch flush write_records insert_all insert_or_ignore
    find_id dispatch select_alerts select_page where_rows order_by place read_alerts
    read_alerts_paginated get_alert_by_id written
program = tt

ids : Option (List (AlertRecord ℕ ℕ)) → List String
ids none = []
ids (some rows) = map (λ a. a.alert_id) rows

high_alerts : ids (read_alerts true none none none (some high) filled).0 ≡ "d" ∷ "b" ∷ []
unfolding program ids
high_alerts = refl

-- An insert that raises loses the alerts of the buffer.
lost : ids (read_alerts true none none none none (flush false filled).1).0 ≡ "b" ∷ "a" ∷ []
unfolding program ids
lost = refl

reads-write_all_example :
    ((start end : Option ℕ) (detector : Option String) (severity : Option Severity)
      → (read_alerts true start end detector severity
          (write_all writes (new_store 2 (some "http://hook")))).0
        ≡ some (select_alerts start end detector severity (insert_all (written writes) [])))
    × ((id : String)
        → (get_alert_by_id true id (write_all writes (new_store 2 (some "http://hook")))).0
          ≡ some (find_id id (insert_all (written writes) [])))
    × ((limit offset : ℕ) (detector : Option String) (severity : Option Severity)
        → (read_alerts_paginated true limit offset detector severity
            (write_all writes (new_store 2 (some "http://hook")))).0
          ≡ some (select_page limit offset detector severity (insert_all (written writes) [])))
reads-write_all_example = reads-write_all 2 (some "http://hook") writes

total_of : Option SummaryStats → ℕ
total_of none = 0
total_of (some stats) = stats.total_alerts

-- The summary sees the buffered alerts too.
counted_alerts : total_of (get_summary_stats true filled).0 ≡ 3
unfolding program total_of get_summary_stats summary_stats
counted_alerts = refl

get_alert_by_id-append_example :
    (get_alert_by_id true "e" (append true (alert "e" 9 low) filled).1).0
    ≡ Option.map
        (λ found. first found (if ◌==◌ {K = String} "e" "e" then some (alert "e" 9 low) else none))
        (get_alert_by_id true "e" filled).0
get_alert_by_id-append_example = get_alert_by_id-append "e" (alert "e" 9 low) filled
