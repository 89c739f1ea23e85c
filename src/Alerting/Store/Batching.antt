-- ===== src/Alerting/Store/Batching.antt =====
-- The buffer of the store does not show: a read is one of the table without a buffer.
use sih.Prelude.{
  some, Option, String, ℕ, if◌then◌else◌, ◌++◌, ◌∷◌, [], List, false, true, Bool, inr, inl, ◌∙◌, ap,
  sym, refl, ◌≡◌, length, Bool-cases, leb,
}
use sih.Alerting.Store.{
  select_page, find_id, select_alerts, new_store, read_alerts_paginated, get_alert_by_id,
  after_flush, read_alerts, is_set, insert_or_ignore, append_batch, append, flush, insert_all,
  AlertStore, write_records, dispatch,
}
use sih.Alerting.Schema.{Severity, AlertRecord}

pub data Write (S X : Type 0) : Type 0 where
  add : AlertRecord S X → Write S X
  add_batch : List (AlertRecord S X) → Write S X
  flush_now : Write S X

module _ {S X : Type 0} where
  -- The store after some writes, while the inserts work.
  abbrev pub write : Write S X → AlertStore S X → AlertStore S X
  unfolding append append_batch flush
  write (add a) s = (append true a s).1
  write (add_batch batch) s = (append_batch true batch s).1
  write flush_now s = (flush true s).1

  unfoldable pub write_all : List (Write S X) → AlertStore S X → AlertStore S X
  unfolding write
  write_all [] s = s
  write_all (w ∷ writes) s = write_all writes (write w s)

  abbrev written_by : Write S X → List (AlertRecord S X)
  written_by (add a) = a ∷ []
  written_by (add_batch batch) = batch
  written_by flush_now = []

  -- All alerts of the writes, in order.
  unfoldable pub written : List (Write S X) → List (AlertRecord S X)
  written [] = []
  written (w ∷ writes) = written_by w ++ written writes

  insert_all-append :
      (xs ys rows : List (AlertRecord S X))
      → insert_all (xs ++ ys) rows ≡ insert_all ys (insert_all xs rows)
  unfolding insert_all
  insert_all-append [] ys rows = refl
  insert_all-append (x ∷ xs) ys rows = insert_all-append xs ys (insert_or_ignore x rows)

  -- The table with the pending writes.
  abbrev pub contents : AlertStore S X → List (AlertRecord S X)
  contents s = insert_all s.write_buffer s.alerts

  write_records_lem :
      (records : List (AlertRecord S X)) (s : AlertStore S X)
      → s.write_buffer ≡ records
      → ((write_records true records s).0 ≡ false)
        × ((write_records true records s).1.write_buffer ≡ [])
        × ((write_records true records s).1.alerts ≡ insert_all records s.alerts)
  unfolding write_records insert_all
  write_records_lem [] s h = (refl, h, refl)
  write_records_lem (a ∷ records) s h = (refl, refl, refl)

  contents-flush : (s : AlertStore S X) → contents (flush true s).1 ≡ contents s
  unfolding flush insert_all
  contents-flush s = let w = write_records_lem s.write_buffer s refl in rw (w.1) w.2

  contents-dispatch :
      (a : AlertRecord S X) (out : Bool × AlertStore S X)
      → contents (dispatch a out).1 ≡ contents out.1
  unfolding dispatch
  contents-dispatch a (true, s) = refl
  contents-dispatch a (false, s) = elim (Bool-cases (is_set s.webhook_url)) [
    | inl given ↦ rw given
    | inr unset ↦ rw unset
  ]

  contents-maybe_flush :
      (b : Bool) (s : AlertStore S X)
      → contents (if b then flush true s else (false, s)).1 ≡ contents s
  contents-maybe_flush true s = contents-flush s
  contents-maybe_flush false s = refl

  pub contents-append :
      (a : AlertRecord S X) (s : AlertStore S X)
      → contents (append true a s).1 ≡ insert_all (a ∷ []) (contents s)
  unfolding append
  contents-append a s =
      let buffered = record s { write_buffer = s.write_buffer ++ a ∷ [] } in
      let whole = leb s.batch_size (length (s.write_buffer ++ a ∷ [])) in
      contents-dispatch a (if whole then flush true buffered else (false, buffered))
      ∙ contents-maybe_flush whole buffered
      ∙ insert_all-append s.write_buffer (a ∷ []) s.alerts

  contents-append_batch :
      (batch : List (AlertRecord S X)) (s : AlertStore S X)
      → contents (append_batch true batch s).1 ≡ insert_all batch (contents s)
  unfolding append_batch insert_all
  contents-append_batch [] s = refl
  contents-append_batch (a ∷ batch) s =
      contents-flush (record s { write_buffer = s.write_buffer ++ a ∷ batch })
      ∙ insert_all-append s.write_buffer (a ∷ batch) s.alerts

  contents-write_all :
      (writes : List (Write S X)) (s : AlertStore S X)
      → contents (write_all writes s) ≡ insert_all (written writes) (contents s)
  unfolding write_all written
  contents-write_all [] s = refl
  contents-write_all (w ∷ writes) s =
      contents-write_all writes (write w s)
      ∙ ap (insert_all (written writes)) (one w)
      ∙ sym (insert_all-append (written_by w) (written writes) (contents s))
    where
      one : (w : Write S X) → contents (write w s) ≡ insert_all (written_by w) (contents s)
      one (add a) = contents-append a s
      one (add_batch batch) = contents-append_batch batch s
      one flush_now = contents-flush s

  pub read-flush :
      {R : Type 0} (query : List (AlertRecord S X) → R) (s : AlertStore S X)
      → (after_flush query (flush true s)).0 ≡ some (query (contents s))
  unfolding flush
  read-flush query s =
      read_out (write_records true s.write_buffer s) (write_records_lem s.write_buffer s refl)
    where
      read_out :
          (out : Bool × AlertStore S X)
          → (out.0 ≡ false) × (out.1.write_buffer ≡ []) × (out.1.alerts ≡ contents s)
          → (after_flush query out).0 ≡ some (query (contents s))
      read_out (true, s') h = cc
      read_out (false, s') h = ap (λ (rows : List (AlertRecord S X)). some (query rows)) h.2

  -- While the inserts work, each of the three reads, after any writes to a new store, raises nothing
  -- and gives what it selects from the table into which all the written alerts were inserted one
  -- after the other: neither the batch size nor the order of the flushes shows.
  pub reads-write_all :
      (batch_size : ℕ) (url : Option String) (writes : List (Write S X))
      → (let s = write_all writes (new_store batch_size url) in
          let rows = insert_all (written writes) [] in
          ((start end : Option ℕ) (detector : Option String) (severity : Option Severity)
            → (read_alerts true start end detector severity s).0
              ≡ some (select_alerts start end detector severity rows))
          × ((id : String) → (get_alert_by_id true id s).0 ≡ some (find_id id rows))
          × ((limit offset : ℕ) (detector : Option String) (severity : Option Severity)
              → (read_alerts_paginated true limit offset detector severity s).0
                ≡ some (select_page limit offset detector severity rows)))
  unfolding read_alerts get_alert_by_id read_alerts_paginated insert_all
  reads-write_all batch_size url writes =
      let s = write_all writes (new_store batch_size url) in
      let same = contents-write_all writes (new_store batch_size url) in
      (
        (λ start end detector severity.
            read-flush (select_alerts start end detector severity) s
            ∙ ap
                (λ (rows : List (AlertRecord S X)).
                  some (select_alerts start end detector severity rows))
                same),
        (λ id.
            read-flush (find_id id) s
            ∙ ap (λ (rows : List (AlertRecord S X)). some (find_id id rows)) same),
        (λ limit offset detector severity.
            read-flush (select_page limit offset detector severity) s
            ∙ ap
                (λ (rows : List (AlertRecord S X)).
                  some (select_page limit offset detector severity rows))
                same),
      )
