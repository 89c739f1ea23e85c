-- ===== src/Alerting/Store/Lookup.antt =====
-- The round trip of the store: an alert that was appended is found by its id.
use mathlib.Core.Option
use sih.Prelude.Eq.{string_eq}
use sih.Prelude.{
  ◌≡◌, refl, ap, arith, Option, some, none, List, [], ◌∷◌, ◌++◌, String, if◌then◌else◌, true,
}
use sih.Alerting.Store.{
  ◌==◌, append, AlertStore, insert_all, insert_or_ignore, find_id, get_alert_by_id,
}
use sih.Alerting.Schema.{AlertRecord}
use sih.Dict.Laws.{first}
use sih.Prelude.Eq.{string_eq}
use sih.Alerting.Store.Batching.{contents, contents-append, read-flush}

module _ {S X : Type 0} where
  find_id-append :
      (id : String) (a : AlertRecord S X) (rows : List (AlertRecord S X))
      → find_id id (rows ++ a ∷ [])
        ≡ first (find_id id rows) (if a.alert_id == id then some a else none)
  unfolding find_id
  find_id-append id a [] = refl
  find_id-append id a (r ∷ rows) = ground (arith, find_id-append id a rows)

  -- An id that is there keeps its alert, as the insert is ignored.
  find_id-insert :
      (id : String) (a : AlertRecord S X) (rows : List (AlertRecord S X))
      → find_id id (insert_or_ignore a rows)
        ≡ first (find_id id rows) (if a.alert_id == id then some a else none)
  unfolding insert_or_ignore
  find_id-insert id a rows =
      ground (arith, string_eq.beq_iff a.alert_id id, find_id-append id a rows)

  -- While the inserts work, whether or not the append flushes: a look-up after it gives what the same
  -- look-up gave before, and where that gave nothing, the alert itself if the id is its own.
  pub get_alert_by_id-append :
      (id : String) (a : AlertRecord S X) (s : AlertStore S X)
      → (get_alert_by_id true id (append true a s).1).0
        ≡ Option.map
            (λ found. first found (if a.alert_id == id then some a else none))
            (get_alert_by_id true id s).0
  unfolding get_alert_by_id insert_all
  get_alert_by_id-append id a s =
      rw
        (
          read-flush (find_id id) (append true a s).1,
          read-flush (find_id id) s,
          contents-append a s,
        )
        (ap (λ (o : Option (AlertRecord S X)). some o) (find_id-insert id a (contents s)))
