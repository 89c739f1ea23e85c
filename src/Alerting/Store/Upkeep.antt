-- ===== src/Alerting/Store/Upkeep.antt =====
-- clear, close and get_summary_stats of alerting/store.py. The connection is opened again by the next
-- call that needs it, so it is no part of the state.
use sih.Prelude.Sort.{sort_by, tally}
use sih.Alerting.Schema.{AlertRecord}
use sih.Alerting.Store.{after_flush, AlertStore, flush}
use sih.Prelude.{map, [], List, some, none, Option, false, true, Bool, String, ℕ, take, length, ltb}
use sih.Prelude.Eq.{string_eq}

pub record SummaryStats : Type 0 where
  pub rate_by_class : List (String × ℕ)
  pub top_talkers : List (String × ℕ)
  pub total_alerts : ℕ

module _ {S X : Type 0} where
  -- `none` is a call that does not return: the handler of a DatabaseError waits for the lock that
  -- `clear` itself holds.
  unfoldable pub clear : Bool → AlertStore S X → Option (AlertStore S X)
  clear true s = some (record s { write_buffer = []; alerts = [] })
  clear false s = none

  unfoldable pub close : Bool → AlertStore S X → Bool × AlertStore S X
  unfolding flush
  close works s = flush works s

  -- The three queries: the groups of the second come in no order that the code asks for.
  unfoldable pub summary_stats : List (AlertRecord S X) → SummaryStats
  summary_stats alerts = record {
    rate_by_class = tally (map (λ a. a.threat_class) alerts);
    top_talkers =
        take 10 (
          sort_by (λ (a b : String × ℕ). ltb b.1 a.1) (tally (map (λ a. a.flow_id.src_ip) alerts)));
    total_alerts = length alerts;
  }

  unfoldable pub get_summary_stats : Bool → AlertStore S X → Option SummaryStats × AlertStore S X
  unfolding flush summary_stats
  get_summary_stats works s = after_flush summary_stats (flush works s)
