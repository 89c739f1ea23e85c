-- ===== src/Alerting/Correlator/History.antt =====
-- The correlator over a list of alerts whose timestamps do not fall.
use sih.Prelude.{
  subst, arith, append_assoc, append-nil, map, ◌++◌, ◌∷◌, [], List, ◌∙◌, ap, sym, refl, ◌≡◌, String,
  ◌≤◌, ℕ, All-append,
}
use sih.Alerting.Schema.{AlertRecord}
use sih.Alerting.Correlator.Window.{Ascending}
use sih.Alerting.Correlator.{
  collected, new_correlator, remember, evict_old, AlertCorrelator, process, Recent, post,
}
use sih.Alerting.Correlator.Links.{
  collected-occurs, cap_related-Links, linked_ids_stale, linked_ids-append, Links, IsSetOrder,
  linked_ids,
}
use sih.Prelude.Eq.{string_eq}
use sih.Dict.Keys.{occurs}
use sih.Alerting.Correlator.Memory.{
  remembered_index, post-Distinct, Ascending-append, evicted-Remembers, new-Remembers, Remembers,
}

module _ {S X : Type 0} (set_order : List String → List String) where
  -- What is kept of an alert.
  abbrev pub recent_of : AlertRecord S X → Recent
  recent_of a = record {
    time = a.timestamp;
    alert_id = a.alert_id;
    src = a.flow_id.src_ip;
    dst = a.flow_id.dst_ip;
  }

  abbrev related_to : AlertCorrelator → AlertRecord S X → List Recent → List String
  related_to c a history =
      linked_ids c.time_window_seconds a.timestamp a.flow_id.src_ip a.flow_id.dst_ip history

  process-Links :
      (a : AlertRecord S X) (c : AlertCorrelator) (history : List Recent) (last : ℕ)
      → IsSetOrder set_order
      → Remembers c history last
      → last ≤ a.timestamp
      → Links
          (related_to c a history)
          a.related_alert_ids
          (process set_order a c).0.related_alert_ids
  unfolding process
  process-Links a c history last so h later =
      let window = c.time_window_seconds in
      let now = a.timestamp in
      let src = a.flow_id.src_ip in
      let dst = a.flow_id.dst_ip in
      let out = evict_old window now c.recent_alerts c.ip_to_alerts in
      let kept = evicted-Remembers c history last now h later in
      let ids = collected window now src dst out.1 in
      let seen : linked_ids window now src dst history ≡ linked_ids window now src dst out.0 =
        ap (linked_ids window now src dst) kept.split
        ∙ linked_ids-append window now src dst kept.older out.0
        ∙ ap (λ (l : List String). l ++ linked_ids window now src dst out.0)
            (linked_ids_stale window now src dst kept.older kept.stale) in
      cap_related-Links _ (set_order ids) a.related_alert_ids
        (λ x.
          so.same ids x
          ∙ collected-occurs window now src dst x out.1 out.0 kept.index
          ∙ ap (occurs x) (sym seen))
        (so.once ids)

  process-Remembers :
      (a : AlertRecord S X) (c : AlertCorrelator) (history : List Recent) (last : ℕ)
      → Remembers c history last
      → last ≤ a.timestamp
      → Remembers (process set_order a c).1 (history ++ recent_of a ∷ []) a.timestamp
  unfolding process remember
  process-Remembers a c history last h later =
      let window = c.time_window_seconds in
      let now = a.timestamp in
      let out = evict_old window now c.recent_alerts c.ip_to_alerts in
      let kept = evicted-Remembers c history last now h later in
      let src_posted = post now a.alert_id a.flow_id.src_ip out.1 in
      record {
        older = kept.older;
        split =
            ap (λ (l : List Recent). l ++ recent_of a ∷ []) kept.split
            ∙ append_assoc kept.older out.0 (recent_of a ∷ []);
        stale = kept.stale;
        ascending = Ascending-append 0 out.0 (recent_of a) kept.ascending (omega arith) kept.latest;
        latest = All-append _ out.0 (recent_of a ∷ []) kept.latest (omega arith);
        distinct =
            post-Distinct now a.alert_id a.flow_id.dst_ip src_posted
              (post-Distinct now a.alert_id a.flow_id.src_ip out.1 kept.distinct);
        index = λ ip. remembered_index ip out.1 out.0 (recent_of a) (kept.index ip);
      }

  -- The correlator after a list of alerts.
  unfoldable pub run : List (AlertRecord S X) → AlertCorrelator → AlertCorrelator
  run [] c = c
  run (a ∷ rest) c = run rest (process set_order a c).1

  window-run :
      (before : List (AlertRecord S X)) (c : AlertCorrelator)
      → (run before c).time_window_seconds ≡ c.time_window_seconds
  unfolding run process
  window-run [] c = refl
  window-run (a ∷ before) c = window-run before _

  resumed-Links :
      (before : List (AlertRecord S X)) (a : AlertRecord S X) (c : AlertCorrelator)
      (history : List Recent) (last : ℕ)
      → IsSetOrder set_order
      → Remembers c history last
      → Ascending last (map recent_of (before ++ a ∷ []))
      → Links
          (related_to (run before c) a (history ++ map recent_of before))
          a.related_alert_ids
          (process set_order a (run before c)).0.related_alert_ids
  unfolding run
  resumed-Links [] a c history last so h asc =
      rw append-nil (process-Links a c history last so h asc.0)
  resumed-Links (b ∷ before) a c history last so h asc =
      rw (← append_assoc history (recent_of b ∷ []) (map recent_of before)) (
        resumed-Links before a _ _ b.timestamp so (process-Remembers b c history last h asc.0)
          asc.1)

  -- Where the timestamps do not fall, the alert that comes after the alerts `before` gets ids of
  -- earlier alerts that share an address with it and are not older than the window: each id once
  -- and at most 20, and all of them where fewer than 20 are added. The empty address is shared by
  -- no two alerts.
  pub run-Links :
      (window : ℕ) (before : List (AlertRecord S X)) (a : AlertRecord S X)
      → IsSetOrder set_order
      → Ascending 0 (map recent_of (before ++ a ∷ []))
      → Links
          (linked_ids window a.timestamp a.flow_id.src_ip a.flow_id.dst_ip (map recent_of before))
          a.related_alert_ids
          (process set_order a (run before (new_correlator window))).0.related_alert_ids
  run-Links window before a so asc =
      subst
        (λ (w : ℕ).
          Links (linked_ids w a.timestamp a.flow_id.src_ip a.flow_id.dst_ip (map recent_of before))
            a.related_alert_ids
            (process set_order a (run before (new_correlator window))).0.related_alert_ids)
        (window-run before (new_correlator window))
        (resumed-Links before a (new_correlator window) [] 0 so (new-Remembers window) asc)
