-- ===== src/Alerting/ClickHouse/Delivery.antt =====
-- Alerts on their way into ClickHouse: appends, rounds of the writer and flushes in any order, each
-- with its own insert that works or raises.
use sih.Prelude.{
  arith, append_assoc, append-nil, ◌++◌, ◌∷◌, [], List, not, false, true, Bool, inr, inl, ◌∙◌, ap,
  sym, refl, ◌≡◌, ℕ, length, Option-cases, if◌then◌else◌, leb,
}
use sih.Alerting.ClickHouse.{
  AlertRow, row_of, writer_round, new_store, insert_rows, flush, flush_pending, append,
  ClickHouseAlertStore, close, rows_of,
}
use sih.Alerting.Schema.{AlertRecord}

pub data StoreCall (S X : Type 0) : Type 0 where
  appended : Bool → AlertRecord S X → StoreCall S X
  round : Bool → StoreCall S X
  flushed : Bool → StoreCall S X
  closed : Bool → StoreCall S X

module _ {S X : Type 0} where
  abbrev pub call_step : StoreCall S X → ClickHouseAlertStore S X → ClickHouseAlertStore S X
  call_step (appended works a) s = append works a s
  call_step (round works) s = writer_round works s
  call_step (flushed works) s = flush works s
  call_step (closed works) s = close works s

  unfoldable pub run : List (StoreCall S X) → ClickHouseAlertStore S X → ClickHouseAlertStore S X
  run [] s = s
  run (e ∷ events) s = run events (call_step e s)

  -- The alerts that the events append.
  unfoldable pub alerts_of : List (StoreCall S X) → List (AlertRecord S X)
  alerts_of [] = []
  alerts_of (appended works a ∷ events) = a ∷ alerts_of events
  alerts_of (round works ∷ events) = alerts_of events
  alerts_of (flushed works ∷ events) = alerts_of events
  alerts_of (closed works ∷ events) = alerts_of events

  -- The rows that are stored, and those that are still to be.
  abbrev pub delivered : ClickHouseAlertStore S X → List (AlertRow S X)
  delivered s = s.table ++ rows_of s.pending

  rows_of-append : (xs ys : List (AlertRecord S X)) → rows_of (xs ++ ys) ≡ rows_of xs ++ rows_of ys
  unfolding rows_of
  rows_of-append [] ys = refl
  rows_of-append (a ∷ xs) ys =
      elim (Option-cases (row_of a.flow_id.src_port a.flow_id.dst_port a)) [
        | inl skipped ↦ rw skipped (rows_of-append xs ys)
        | inr (row, made) ↦ rw made (ap (◌∷◌ row) (rows_of-append xs ys))
      ]

  delivered-insert_rows :
      (works : Bool) (rows : List (AlertRow S X)) (s : ClickHouseAlertStore S X)
      → rows_of s.pending ≡ rows
      → delivered (insert_rows works rows s) ≡ delivered s
  unfolding insert_rows rows_of
  delivered-insert_rows works [] s h = ap (λ (l : List (AlertRow S X)). s.table ++ l) (sym h)
  delivered-insert_rows true (row ∷ rows) s h =
      append-nil (s.table ++ row ∷ rows) ∙ ap (λ (l : List (AlertRow S X)). s.table ++ l) (sym h)
  delivered-insert_rows false (row ∷ rows) s h = refl

  delivered-flush_pending :
      (works : Bool) (alerts : List (AlertRecord S X)) (s : ClickHouseAlertStore S X)
      → s.pending ≡ alerts
      → delivered (flush_pending works alerts s) ≡ delivered s
  unfolding flush_pending
  delivered-flush_pending works [] s h = refl
  delivered-flush_pending works (a ∷ alerts) s h =
      delivered-insert_rows works (rows_of (a ∷ alerts)) s (ap rows_of h)

  either_way :
      (b : Bool) (x y z : ClickHouseAlertStore S X)
      → delivered x ≡ delivered z
      → delivered y ≡ delivered z
      → delivered (if b then x else y) ≡ delivered z
  either_way true x y z h g = h
  either_way false x y z h g = g

  pub delivered-flush :
      (works : Bool) (s : ClickHouseAlertStore S X) → delivered (flush works s) ≡ delivered s
  unfolding flush
  delivered-flush works s =
      either_way (not s.connected) s _ s refl (delivered-flush_pending works s.pending s refl)

  pub delivered-append :
      (works : Bool) (a : AlertRecord S X) (s : ClickHouseAlertStore S X)
      → delivered (append works a s) ≡ delivered s ++ rows_of (a ∷ [])
  unfolding append
  delivered-append works a s =
      let added = record s { pending = s.pending ++ a ∷ [] } in
      either_way (leb s.batch_size (length added.pending)) _ added added
        (delivered-flush works added) refl
      ∙ ap (λ (l : List (AlertRow S X)). s.table ++ l) (rows_of-append s.pending (a ∷ []))
      ∙ sym (append_assoc s.table (rows_of s.pending) (rows_of (a ∷ [])))

  delivered-run :
      (events : List (StoreCall S X)) (s : ClickHouseAlertStore S X)
      → delivered (run events s) ≡ delivered s ++ rows_of (alerts_of events)
  unfolding run alerts_of rows_of
  delivered-run [] s = sym (append-nil (delivered s))
  delivered-run (appended works a ∷ events) s =
      delivered-run events (append works a s)
      ∙ ap (λ (l : List (AlertRow S X)). l ++ rows_of (alerts_of events))
          (delivered-append works a s)
      ∙ append_assoc (delivered s) (rows_of (a ∷ [])) (rows_of (alerts_of events))
      ∙ ap (λ (l : List (AlertRow S X)). delivered s ++ l)
          (sym (rows_of-append (a ∷ []) (alerts_of events)))
  delivered-run (round works ∷ events) s =
      delivered-run events (writer_round works s)
      ∙ ap (λ (l : List (AlertRow S X)). l ++ rows_of (alerts_of events))
          (unfold writer_round in either_way s.stopped s _ s refl (delivered-flush works s))
  delivered-run (flushed works ∷ events) s =
      delivered-run events (flush works s)
      ∙ ap (λ (l : List (AlertRow S X)). l ++ rows_of (alerts_of events)) (delivered-flush works s)
  delivered-run (closed works ∷ events) s =
      delivered-run events (close works s)
      ∙ ap (λ (l : List (AlertRow S X)). l ++ rows_of (alerts_of events))
          (unfold close in delivered-flush works (record s { stopped = true }))

  -- Whatever inserts raise, and in whatever order alerts are appended and flushed: the table, with
  -- the rows of the alerts that are pending after it, is the rows of all appended alerts, each once
  -- and in order. An alert has a row exactly where it has both ports.
  pub delivered-run_new :
      (connected : Bool) (batch_size : ℕ) (events : List (StoreCall S X))
      → (run events (new_store connected batch_size)).table
          ++ rows_of (run events (new_store connected batch_size)).pending
        ≡ rows_of (alerts_of events)
  unfolding rows_of
  delivered-run_new connected batch_size events =
      delivered-run events (new_store connected batch_size)

  flush_pending_empties :
      (alerts : List (AlertRecord S X)) (s : ClickHouseAlertStore S X)
      → s.pending ≡ alerts
      → (flush_pending true alerts s).pending ≡ []
  unfolding flush_pending
  flush_pending_empties [] s h = h
  flush_pending_empties (a ∷ alerts) s h = insert_rows_empties (rows_of (a ∷ alerts))
    where
      insert_rows_empties : (rows : List (AlertRow S X)) → (insert_rows true rows s).pending ≡ []
      insert_rows_empties [] = unfold insert_rows in refl
      insert_rows_empties (row ∷ rows) = unfold insert_rows in refl

  connected-flush_pending :
      (works : Bool) (alerts : List (AlertRecord S X)) (s : ClickHouseAlertStore S X)
      → (flush_pending works alerts s).connected ≡ s.connected
  unfolding flush_pending
  connected-flush_pending works [] s = refl
  connected-flush_pending works (a ∷ alerts) s = of_rows works (rows_of (a ∷ alerts))
    where
      of_rows :
          (b : Bool) (rows : List (AlertRow S X)) → (insert_rows b rows s).connected ≡ s.connected
      of_rows b [] = unfold insert_rows in refl
      of_rows true (row ∷ rows) = unfold insert_rows in refl
      of_rows false (row ∷ rows) = unfold insert_rows in refl

  connected-flush :
      (works : Bool) (s : ClickHouseAlertStore S X) → (flush works s).connected ≡ s.connected
  unfolding flush
  connected-flush works s = ground (arith, connected-flush_pending works s.pending s)

  connected-call_step :
      (e : StoreCall S X) (s : ClickHouseAlertStore S X) → (call_step e s).connected ≡ s.connected
  unfolding append writer_round close
  connected-call_step (appended works a) s =
      ground (arith, connected-flush works (record s { pending = s.pending ++ a ∷ [] }))
  connected-call_step (round works) s = ground (arith, connected-flush works s)
  connected-call_step (flushed works) s = connected-flush works s
  connected-call_step (closed works) s = connected-flush works (record s { stopped = true })

  connected-run :
      (events : List (StoreCall S X)) (s : ClickHouseAlertStore S X)
      → (run events s).connected ≡ s.connected
  unfolding run
  connected-run [] s = refl
  connected-run (e ∷ events) s = connected-run events (call_step e s) ∙ connected-call_step e s

  flush_empties : (s : ClickHouseAlertStore S X) → s.connected ≡ true → (flush true s).pending ≡ []
  unfolding flush
  flush_empties s h = ground (arith, flush_pending_empties s.pending s refl)

  -- On a new store that is connected, and after any appends, rounds of the writer, flushes and closes,
  -- whatever inserts raise in them: a close whose insert works leaves nothing pending, and the table is
  -- then the rows of all appended alerts, each once and in order.
  pub close_delivers :
      (batch_size : ℕ) (events : List (StoreCall S X))
      → ((close true (run events (new_store true batch_size))).pending ≡ [])
        × ((close true (run events (new_store true batch_size))).table ≡ rows_of (alerts_of events))
  unfolding close
  close_delivers batch_size events =
      let s = run events (new_store true batch_size) in
      let stopped = record s { stopped = true } in
      let empty : (flush true stopped).pending ≡ [] =
        flush_empties stopped (connected-run events (new_store true batch_size)) in
      (
        empty,
        sym (append-nil (flush true stopped).table)
            ∙ ap (λ (l : List (AlertRecord S X)). (flush true stopped).table ++ rows_of l)
                (sym empty)
            ∙ delivered-flush true stopped
            ∙ delivered-run_new true batch_size events,
      )
