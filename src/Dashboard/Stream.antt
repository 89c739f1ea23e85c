-- ===== src/Dashboard/Stream.antt =====
-- The alerts of stream_live_events of dashboard/api/server.py: a round of the generator's loop, by
-- where the alerts come from. What was sent is the list of what is yielded; the set of sent ids lists
-- its elements in an order that is a parameter.
pub mod Rounds
use sih.Prelude.Eq.{◌==◌, string_eq}
use sih.Dict.Keys.{occurs}
use sih.Prelude.{
  ◌++◌, ◌∷◌, [], List, some, none, Option, ◌||◌, ◌&&◌, not, false, true, Bool, String, ◌-◌, suc,
  zero, ℕ, drop, length, if◌then◌else◌, ltb,
}

-- An alert with its id and its time.
pub record Sent (A : Type 0) : Type 0 where
  pub alert_id : String
  pub timestamp : ℕ
  pub body : A

pub record Stream : Type 0 where
  pub last_ts : ℕ
  pub sent_alert_ids : List String

-- max(last_ts, timestamp)
abbrev pub later : ℕ → ℕ → ℕ
later last_ts time = if ltb last_ts time then time else last_ts

-- `if len(sent_alert_ids) > 10000`
unfoldable pub trim_sent : (List String → List String) → Stream → Stream
trim_sent set_order s =
    if ltb 10000 (length s.sent_alert_ids)
    then record s {
      sent_alert_ids = (let ids = set_order s.sent_alert_ids in drop (length ids - 5000) ids);
    }
    else s

abbrev pub mark_sent : String → Stream → Stream
mark_sent id s = record s { sent_alert_ids = s.sent_alert_ids ++ id ∷ [] }

-- Where a round takes its alerts from: Kafka's queue, a dataset replay that runs, the store while a
-- simulation runs, or nowhere, at a time.
pub data Origin (A : Type 0) : Type 0 where
  kafka_queue : List (Option (Sent A)) → Origin A
  dataset_alerts : List (Sent A) → Origin A
  recent_alerts : List (Sent A) → Origin A
  idle : ℕ → Origin A

module _ {A : Type 0} where
  abbrev pub is_new : Sent A → Stream → Bool
  is_new a s = not (occurs a.alert_id s.sent_alert_ids)

  -- The body of the drain of Kafka's queue; an item that is no dict is an exception.
  unfoldable pub drain_alerts : ℕ → List (Option (Sent A)) → Stream → List (Sent A) × Stream
  unfolding occurs
  drain_alerts zero items s = ([], s)
  drain_alerts (suc budget) [] s = ([], s)
  drain_alerts (suc budget) (none ∷ items) s = ([], s)
  drain_alerts (suc budget) (some a ∷ items) s =
      let fresh = drain_alerts budget items (mark_sent a.alert_id s) in
      let same = drain_alerts budget items s in
      if not (a.alert_id == "") && is_new a s then (a ∷ fresh.0, fresh.1) else same

  -- The two loops over a list of alerts, which end once `budget` alerts were yielded. Only that over
  -- the dataset's alerts leaves out an empty id.
  unfoldable pub yield_alerts :
      (takes_empty : Bool) → ℕ → List (Sent A) → Stream → List (Sent A) × Stream
  unfolding occurs
  yield_alerts takes_empty zero alerts s = ([], s)
  yield_alerts takes_empty (suc budget) [] s = ([], s)
  yield_alerts takes_empty (suc budget) (a ∷ alerts) s =
      let marked = record (mark_sent a.alert_id s) { last_ts = later s.last_ts a.timestamp } in
      let fresh = yield_alerts takes_empty budget alerts marked in
      let same = yield_alerts takes_empty (suc budget) alerts s in
      if (takes_empty || not (a.alert_id == "")) && is_new a s then (a ∷ fresh.0, fresh.1) else same

  unfoldable pub push_alerts :
      (List String → List String) → Origin A → Stream → List (Sent A) × Stream
  unfolding drain_alerts yield_alerts trim_sent
  push_alerts set_order (kafka_queue items) s = drain_alerts 50 items s
  push_alerts set_order (dataset_alerts alerts) s =
      let yielded = yield_alerts false 50 alerts s in (yielded.0, trim_sent set_order yielded.1)
  push_alerts set_order (recent_alerts alerts) s =
      let yielded = yield_alerts true 50 alerts s in (yielded.0, trim_sent set_order yielded.1)
  push_alerts set_order (idle now) s = ([], record s { last_ts = now })
