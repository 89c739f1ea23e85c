-- ===== src/Alerting/Store.antt =====
-- AlertStore of alerting/store.py. A row of the table is the alert that its columns hold: the two
-- texts of JSON are read back as they were written. An insert of SQLite may raise, and whether it
-- does is an argument. A call returns whether it raised. Rows with one timestamp come in the order of
-- the walk over the index of the timestamps: that of their insertion where it ascends, and the reverse
-- where it descends.
pub mod Batching
pub mod Upkeep
pub mod Lookup
mod Tests
use sih.Alerting.Schema.{same_severity, Severity, AlertRecord, low, medium, high, critical}
use sih.Prelude.Eq.{◌==◌, string_eq}
use sih.Prelude.{
  ◌++◌, ◌∷◌, [], List, some, none, Option, ◌&&◌, not, false, true, Bool, String, ◌*◌, ℕ, drop, take,
  length, is_some, if◌then◌else◌, leb, ltb,
}

pub record AlertStore (S X : Type 0) : Type 0 where
  pub batch_size : ℕ
  pub webhook_url : Option String
  pub write_buffer : List (AlertRecord S X)
  pub alerts : List (AlertRecord S X)
  pub dispatched : List (AlertRecord S X)

-- Python's truth of an optional text
abbrev pub is_set : Option String → Bool
is_set none = false
is_set (some url) = not (url == "")

-- A condition of a query that is left out where its argument is None
abbrev at_least : Option ℕ → ℕ → Bool
at_least none time = true
at_least (some start) time = leb start time

abbrev at_most : Option ℕ → ℕ → Bool
at_most none time = true
at_most (some end) time = leb time end

abbrev is_text : Option String → String → Bool
is_text none text = true
is_text (some wanted) text = text == wanted

abbrev is_severity : Option Severity → Severity → Bool
is_severity none severity = true
is_severity (some wanted) severity = same_severity severity wanted

module _ {S X : Type 0} where
  abbrev pub new_store : ℕ → Option String → AlertStore S X
  new_store batch_size webhook_url = record {
    batch_size = batch_size;
    webhook_url = webhook_url;
    write_buffer = [];
    alerts = [];
    dispatched = [];
  }

  -- SELECT * FROM alerts WHERE alert_id = ? LIMIT 1
  unfoldable pub find_id : String → List (AlertRecord S X) → Option (AlertRecord S X)
  find_id id [] = none
  find_id id (a ∷ rows) = if a.alert_id == id then some a else find_id id rows

  -- INSERT OR IGNORE, with alert_id as the primary key
  unfoldable pub insert_or_ignore :
      AlertRecord S X → List (AlertRecord S X) → List (AlertRecord S X)
  unfolding find_id
  insert_or_ignore a rows = if is_some (find_id a.alert_id rows) then rows else rows ++ a ∷ []

  -- executemany
  unfoldable pub insert_all :
      List (AlertRecord S X) → List (AlertRecord S X) → List (AlertRecord S X)
  unfolding insert_or_ignore
  insert_all [] rows = rows
  insert_all (a ∷ records) rows = insert_all records (insert_or_ignore a rows)

  -- The buffer is cleared in `finally`, after a failed insert too.
  unfoldable pub write_records :
      Bool → List (AlertRecord S X) → AlertStore S X → Bool × AlertStore S X
  unfolding insert_all
  write_records works [] s = (false, s)
  write_records true (a ∷ records) s =
      (false, record s { write_buffer = []; alerts = insert_all (a ∷ records) s.alerts })
  write_records false (a ∷ records) s = (true, record s { write_buffer = [] })

  unfoldable pub flush : Bool → AlertStore S X → Bool × AlertStore S X
  unfolding write_records
  flush works s = write_records works s.write_buffer s

  -- The webhook's thread of `append`, which an exception of the flush does not reach
  unfoldable pub dispatch : AlertRecord S X → Bool × AlertStore S X → Bool × AlertStore S X
  dispatch a (true, s) = (true, s)
  dispatch a (false, s) = (
    false,
    (if is_set s.webhook_url then record s { dispatched = s.dispatched ++ a ∷ [] } else s),
  )

  unfoldable pub append : Bool → AlertRecord S X → AlertStore S X → Bool × AlertStore S X
  unfolding flush dispatch
  append works a s =
      let buffered = record s { write_buffer = s.write_buffer ++ a ∷ [] } in
      dispatch a (
        if leb s.batch_size (length buffered.write_buffer)
        then flush works buffered
        else (false, buffered))

  unfoldable pub append_batch :
      Bool → List (AlertRecord S X) → AlertStore S X → Bool × AlertStore S X
  unfolding flush
  append_batch works [] s = (false, s)
  append_batch works (a ∷ batch) s =
      flush works (record s { write_buffer = s.write_buffer ++ a ∷ batch })

  -- The rows that a query's WHERE keeps, and ORDER BY
  unfoldable pub where_rows :
      (AlertRecord S X → Bool) → List (AlertRecord S X) → List (AlertRecord S X)
  where_rows test [] = []
  where_rows test (a ∷ rows) = let rest = where_rows test rows in if test a then a ∷ rest else rest

  unfoldable pub place :
      (ℕ → ℕ → Bool) → AlertRecord S X → List (AlertRecord S X) → List (AlertRecord S X)
  place before a [] = a ∷ []
  place before a (b ∷ rows) =
      let rest = place before a rows in
      if before b.timestamp a.timestamp then b ∷ rest else a ∷ b ∷ rows

  unfoldable pub order_by : (ℕ → ℕ → Bool) → List (AlertRecord S X) → List (AlertRecord S X)
  unfolding place
  order_by before [] = []
  order_by before (a ∷ rows) = place before a (order_by before rows)

  unfoldable pub select_alerts :
      Option ℕ
      → Option ℕ
      → Option String
      → Option Severity
      → List (AlertRecord S X)
      → List (AlertRecord S X)
  unfolding where_rows order_by
  select_alerts start end detector severity rows = order_by ltb (
      where_rows
        (λ a.
          at_least start a.timestamp
          && at_most end a.timestamp
          && is_text detector a.detector
          && is_severity severity a.severity)
        rows)

  unfoldable pub select_page :
      ℕ → ℕ → Option String → Option Severity → List (AlertRecord S X) → ℕ × List (AlertRecord S X)
  unfolding where_rows order_by
  select_page limit offset detector severity rows =
      let matching =
        where_rows (λ a. is_text detector a.detector && is_severity severity a.severity) rows in
      (length matching, take limit (drop offset (order_by (λ b a. leb a b) matching)))

  -- A read after the flush of the pending writes; `none` where the flush raises.
  abbrev pub after_flush :
      {R : Type 0}
      → (List (AlertRecord S X) → R)
      → Bool × AlertStore S X
      → Option R × AlertStore S X
  after_flush query (true, s) = (none, s)
  after_flush query (false, s) = (some (query s.alerts), s)

  unfoldable pub read_alerts :
      Bool
      → Option ℕ
      → Option ℕ
      → Option String
      → Option Severity
      → AlertStore S X
      → Option (List (AlertRecord S X)) × AlertStore S X
  unfolding flush select_alerts
  read_alerts works start end detector severity s =
      after_flush (select_alerts start end detector severity) (flush works s)

  unfoldable pub get_alert_by_id :
      Bool → String → AlertStore S X → Option (Option (AlertRecord S X)) × AlertStore S X
  unfolding flush find_id
  get_alert_by_id works id s = after_flush (find_id id) (flush works s)

  unfoldable pub read_alerts_paginated :
      Bool
      → ℕ
      → ℕ
      → Option String
      → Option Severity
      → AlertStore S X
      → Option (ℕ × List (AlertRecord S X)) × AlertStore S X
  unfolding flush select_page
  read_alerts_paginated works limit offset detector severity s =
      after_flush (select_page limit offset detector severity) (flush works s)
