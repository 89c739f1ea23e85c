-- ===== src/Alerting/ClickHouse.antt =====
-- ClickHouseAlertStore of alerting/clickhouse_store.py. ClickHouse is a table of rows; whether a
-- call of its client raises is an argument. `connected` says whether `_client` is set.
pub mod Delivery
pub mod Summary
mod Tests
use sih.Prelude.{
  map, ◌++◌, ◌∷◌, [], List, some, none, Option, not, false, true, Bool, String, ℕ, take, length,
  if◌then◌else◌, leb, ltb,
}
use sih.Prelude.Sort.{tally, sort_by}
use sih.Alerting.Schema.{same_severity, Severity, AlertRecord}
use sih.Prelude.Eq.{string_eq}

-- A row of the table; a feature and the related ids are kept as the values of their JSON. The columns
-- of the table are narrower, Float32 for the confidence and UInt16 for the ports: a value is kept here
-- as it is inserted.
pub record AlertRow (S X : Type 0) : Type 0 where
  pub alert_id : String
  pub timestamp : ℕ
  pub threat_class : String
  pub severity : Severity
  pub confidence : S
  pub src_ip : String
  pub dst_ip : String
  pub src_port : ℕ
  pub dst_port : ℕ
  pub protocol : String
  pub explanation : X
  pub features : List (String × S)
  pub related_ids : List String

pub record ClickHouseAlertStore (S X : Type 0) : Type 0 where
  pub batch_size : ℕ
  pub connected : Bool
  pub pending : List (AlertRecord S X)
  pub table : List (AlertRow S X)
  pub stopped : Bool

pub record Stats : Type 0 where
  pub total : ℕ
  pub rate_by_class : List (String × ℕ)
  pub top_talkers : List (String × ℕ)

-- GROUP BY the keys, ORDER BY cnt DESC. The order of equal counts is left open by ClickHouse, and is
-- some order here.
abbrev pub by_count : List String → List (String × ℕ)
by_count keys = sort_by (λ a b. ltb b.1 a.1) (tally keys)

abbrev no_stats : Stats
no_stats = record { total = 0; rate_by_class = []; top_talkers = [] }

module _ {S X : Type 0} where
  abbrev pub new_store : Bool → ℕ → ClickHouseAlertStore S X
  new_store connected batch_size = record {
    batch_size = batch_size;
    connected = connected;
    pending = [];
    table = [];
    stopped = false;
  }

  -- A row of one alert. The dictionary of the flow has its ports, also where they are None, and
  -- `int(None)` is a TypeError: the alert is skipped.
  unfoldable pub row_of : Option ℕ → Option ℕ → AlertRecord S X → Option (AlertRow S X)
  row_of none dst_port a = none
  row_of (some src_port) none a = none
  row_of (some src_port) (some dst_port) a = some (record {
    alert_id = a.alert_id;
    timestamp = a.timestamp;
    threat_class = a.threat_class;
    severity = a.severity;
    confidence = a.confidence_score;
    src_ip = a.flow_id.src_ip;
    dst_ip = a.flow_id.dst_ip;
    src_port = src_port;
    dst_port = dst_port;
    protocol = a.flow_id.protocol;
    explanation = a.evidence.explanation;
    features = a.evidence.features;
    related_ids = a.related_alert_ids;
  })

  abbrev pub cons_row : Option (AlertRow S X) → List (AlertRow S X) → List (AlertRow S X)
  cons_row none rows = rows
  cons_row (some row) rows = row ∷ rows

  -- The loop over the pending alerts.
  unfoldable pub rows_of : List (AlertRecord S X) → List (AlertRow S X)
  unfolding row_of
  rows_of [] = []
  rows_of (a ∷ alerts) = cons_row (row_of a.flow_id.src_port a.flow_id.dst_port a) (rows_of alerts)

  -- The end of `_flush_locked`: nothing to insert, or the insert, which may raise.
  unfoldable pub insert_rows :
      Bool → List (AlertRow S X) → ClickHouseAlertStore S X → ClickHouseAlertStore S X
  insert_rows works [] s = record s { pending = [] }
  insert_rows true (row ∷ rows) s = record s { pending = []; table = s.table ++ row ∷ rows }
  insert_rows false (row ∷ rows) s = s

  unfoldable pub flush_pending :
      Bool → List (AlertRecord S X) → ClickHouseAlertStore S X → ClickHouseAlertStore S X
  unfolding rows_of insert_rows
  flush_pending works [] s = s
  flush_pending works (a ∷ alerts) s = insert_rows works (rows_of (a ∷ alerts)) s

  unfoldable pub flush : Bool → ClickHouseAlertStore S X → ClickHouseAlertStore S X
  unfolding flush_pending
  flush works s = if not s.connected then s else flush_pending works s.pending s

  unfoldable pub append :
      Bool → AlertRecord S X → ClickHouseAlertStore S X → ClickHouseAlertStore S X
  unfolding flush
  append works a s =
      let added = record s { pending = s.pending ++ a ∷ [] } in
      if leb s.batch_size (length added.pending) then flush works added else added

  -- A round of the writer's loop; the flush tests the pending list itself. A round that sleeps
  -- while the store is stopped still flushes: that is a flush of its own.
  unfoldable pub writer_round : Bool → ClickHouseAlertStore S X → ClickHouseAlertStore S X
  unfolding flush
  writer_round works s = if s.stopped then s else flush works s

  unfoldable pub close : Bool → ClickHouseAlertStore S X → ClickHouseAlertStore S X
  unfolding flush
  close works s = flush works (record s { stopped = true })

  abbrev severity_wanted : Option Severity → AlertRow S X → Bool
  severity_wanted none row = true
  severity_wanted (some severity) row = same_severity row.severity severity

  unfoldable pub rows_where : (AlertRow S X → Bool) → List (AlertRow S X) → List (AlertRow S X)
  rows_where test [] = []
  rows_where test (row ∷ rows) =
      let rest = rows_where test rows in if test row then row ∷ rest else rest

  -- ORDER BY timestamp DESC LIMIT
  unfoldable pub read_alerts :
      Bool → ℕ → Option Severity → ClickHouseAlertStore S X → List (AlertRow S X)
  unfolding rows_where
  read_alerts works limit severity s =
      if not s.connected
      then []
      else if works
      then take limit (
          sort_by (λ a b. ltb b.timestamp a.timestamp)
            (rows_where (severity_wanted severity) s.table))
      else []

  unfoldable pub get_summary : Bool → ClickHouseAlertStore S X → Stats
  get_summary works s =
      if not s.connected
      then no_stats
      else if works
      then record {
        total = length s.table;
        rate_by_class = by_count (map (λ row. row.threat_class) s.table);
        top_talkers = take 10 (by_count (map (λ row. row.src_ip) s.table));
      }
      else no_stats
