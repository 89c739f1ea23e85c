-- ===== src/Alerting/ClickHouse/Summary.antt =====
-- What get_summary of alerting/clickhouse_store.py counts.
use sih.Dict.{lookup, Distinct}
use sih.Prelude.{
  arith, map, List, false, true, Bool, ◌∙◌, sym, refl, ◌≡◌, String, ℕ, length-map, take, length,
  ltb,
}
use sih.Alerting.ClickHouse.{AlertRow, Stats, ClickHouseAlertStore, get_summary}
use sih.Prelude.Sort.{
  sort_by, sort_by-IsOrdered, IsOrdered, sum_counts-tally, tally, occurrences, sum_counts-sort_by,
  sum_counts,
}
use sih.Prelude.Eq.{string_eq}
use sih.Dict.Counts.{lookup-tally, Distinct-tally, sort_by_keeps, count_entry}

abbrev more : String × ℕ → String × ℕ → Bool
more a b = ltb b.1 a.1

more_asym : (a b : String × ℕ) → more a b ≡ true → more b a ≡ false
more_asym a b h = ground arith

pub record IsSummary (table_classes table_sources : List String) (stats : Stats) : Type 0 where
  pub total_is : stats.total ≡ length table_classes
  pub rates_add_up : sum_counts stats.rate_by_class ≡ stats.total
  pub rates_once : Distinct stats.rate_by_class
  pub rates_count :
      (c : String) → lookup c stats.rate_by_class ≡ count_entry (occurrences c table_classes)
  pub rates_fall : IsOrdered more stats.rate_by_class
  pub talkers : List (String × ℕ)
  pub talkers_once : Distinct talkers
  pub talkers_count : (ip : String) → lookup ip talkers ≡ count_entry (occurrences ip table_sources)
  pub talkers_fall : IsOrdered more talkers
  pub top_is : stats.top_talkers ≡ take 10 talkers

module _ {S X : Type 0} where
  -- On a store that is connected, and where the queries work: the total is the number of rows, and
  -- the sum of the rates; each class of a row stands in the rates once, with the number of its rows,
  -- and no other class does; the rates fall; and the top talkers are the first ten, by falling
  -- counts, of the source addresses, each once with the number of its rows.
  pub get_summary-IsSummary :
      (s : ClickHouseAlertStore S X)
      → s.connected ≡ true
      → IsSummary
          (map (λ row. row.threat_class) s.table)
          (map (λ row. row.src_ip) s.table)
          (get_summary true s)
  unfolding get_summary
  get_summary-IsSummary s h =
      let classes = map (λ (row : AlertRow S X). row.threat_class) s.table in
      let sources = map (λ (row : AlertRow S X). row.src_ip) s.table in
      let rates = sort_by_keeps more (tally classes) (Distinct-tally classes) in
      let counts = sort_by_keeps more (tally sources) (Distinct-tally sources) in
      simp h (record {
        total_is = sym (length-map s.table (λ (row : AlertRow S X). row.threat_class));
        rates_add_up =
            sum_counts-sort_by more (tally classes)
            ∙ sum_counts-tally classes
            ∙ length-map s.table (λ (row : AlertRow S X). row.threat_class);
        rates_once = rates.0;
        rates_count = λ c. rates.1 c ∙ lookup-tally c classes;
        rates_fall = sort_by-IsOrdered more (tally classes) more_asym;
        talkers = sort_by more (tally sources);
        talkers_once = counts.0;
        talkers_count = λ ip. counts.1 ip ∙ lookup-tally ip sources;
        talkers_fall = sort_by-IsOrdered more (tally sources) more_asym;
        top_is = refl;
      })
