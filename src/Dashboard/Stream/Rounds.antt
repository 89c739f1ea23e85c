-- ===== src/Dashboard/Stream/Rounds.antt =====
-- What a round of the stream sends.
use sih.Dashboard.Stream.{
  mark_sent, later, Origin, trim_sent, yield_alerts, push_alerts, is_new, kafka_queue,
  dataset_alerts, recent_alerts, idle,
}
use sih.Prelude.Eq.{◌==◌, string_eq}
use sih.Dict.Keys.{occurs, NoRepeat, occurs-append}
use sih.Prelude.{
  ◌||◌, Bool, subst, arith, append_assoc, append-nil, map, ◌++◌, ◌∷◌, [], List, some, none, Option,
  ◌&&◌, not, false, true, ◌∙◌, sym, ◌≡◌, String, ◌≤◌, suc, zero, ℕ, length, of_branches,
}
use sih.Dashboard.Stream.{Stream, Sent, drain_alerts}

trim_sent_small :
    (set_order : List String → List String) (s : Stream)
    → length s.sent_alert_ids ≤ 10000
    → (trim_sent set_order s).sent_alert_ids ≡ s.sent_alert_ids
unfolding trim_sent
trim_sent_small set_order s h = ground (arith, h)

absent_of : (b c : Bool) → (b ≡ true → c ≡ false) → c ≡ true → b ≡ false
absent_of b c h g = ground (arith, h, g)

added : (id : String) (before : List String) → occurs id (before ++ id ∷ []) ≡ true
unfolding occurs
added id before = ground (arith, occurs-append id before (id ∷ []), string_eq.beq_iff id id)

module _ {A : Type 0} where
  abbrev pub ids_of : List (Sent A) → List String
  ids_of alerts = map (λ a. a.alert_id) alerts

  -- At most `budget` alerts, each of another id, none of which is in `before`; and the ids after are
  -- those before and then those of the alerts.
  pub record IsSent (budget : ℕ) (before after : List String) (sent : List (Sent A)) : Type 0 where
    pub within : length sent ≤ budget
    pub once : NoRepeat (ids_of sent)
    pub unsent : (id : String) → occurs id (ids_of sent) ≡ true → occurs id before ≡ false
    pub kept : after ≡ before ++ ids_of sent

  IsSent-none : (budget : ℕ) (ids : List String) → IsSent budget ids ids []
  unfolding occurs
  IsSent-none budget ids = record {
    within = omega arith;
    once = tt;
    unsent = λ id h. cc;
    kept = sym (append-nil ids);
  }

  IsSent-more :
      (budget : ℕ) (before after : List String) (sent : List (Sent A))
      → IsSent budget before after sent
      → IsSent (suc budget) before after sent
  IsSent-more budget before after sent h = record {
    within = omega (arith, h.within);
    once = h.once;
    unsent = h.unsent;
    kept = h.kept;
  }

  IsSent-cons :
      (budget : ℕ) (a : Sent A) (before after : List String) (sent : List (Sent A))
      → occurs a.alert_id before ≡ false
      → IsSent budget (before ++ a.alert_id ∷ []) after sent
      → IsSent (suc budget) before after (a ∷ sent)
  unfolding occurs
  IsSent-cons budget a before after sent new h = record {
    within = omega (arith, h.within);
    once = (
      absent_of (occurs a.alert_id (ids_of sent)) _ (h.unsent a.alert_id) (added a.alert_id before),
      h.once,
    );
    unsent = λ id found. ground (
      arith,
      found,
      new,
      h.unsent id,
      occurs-append id before (a.alert_id ∷ []),
      string_eq.beq_iff a.alert_id id,
    );
    kept = h.kept ∙ append_assoc before (a.alert_id ∷ []) (ids_of sent);
  }

  IsSent-drain_alerts :
      (budget : ℕ) (items : List (Option (Sent A))) (s : Stream)
      → IsSent budget s.sent_alert_ids
          (drain_alerts budget items s).1.sent_alert_ids
          (drain_alerts budget items s).0
  unfolding drain_alerts
  IsSent-drain_alerts zero items s = IsSent-none zero s.sent_alert_ids
  IsSent-drain_alerts (suc budget) [] s = IsSent-none (suc budget) s.sent_alert_ids
  IsSent-drain_alerts (suc budget) (none ∷ items) s = IsSent-none (suc budget) s.sent_alert_ids
  IsSent-drain_alerts (suc budget) (some a ∷ items) s =
      of_branches
        (λ (r : List (Sent A) × Stream).
          IsSent (suc budget) s.sent_alert_ids r.1.sent_alert_ids r.0)
        (not (a.alert_id == "") && is_new a s) _ _
        (λ new.
          IsSent-cons budget a s.sent_alert_ids _ _ (ground (arith, new))
            (IsSent-drain_alerts budget items (mark_sent a.alert_id s)))
        (λ old. IsSent-more budget s.sent_alert_ids _ _ (IsSent-drain_alerts budget items s))

  IsSent-yield_alerts :
      (takes_empty : Bool) (budget : ℕ) (alerts : List (Sent A)) (s : Stream)
      → IsSent budget s.sent_alert_ids
          (yield_alerts takes_empty budget alerts s).1.sent_alert_ids
          (yield_alerts takes_empty budget alerts s).0
  unfolding yield_alerts
  IsSent-yield_alerts takes_empty zero alerts s = IsSent-none zero s.sent_alert_ids
  IsSent-yield_alerts takes_empty (suc budget) [] s = IsSent-none (suc budget) s.sent_alert_ids
  IsSent-yield_alerts takes_empty (suc budget) (a ∷ alerts) s =
      of_branches
        (λ (r : List (Sent A) × Stream).
          IsSent (suc budget) s.sent_alert_ids r.1.sent_alert_ids r.0)
        ((takes_empty || not (a.alert_id == "")) && is_new a s) _ _
        (λ new. IsSent-cons budget a s.sent_alert_ids _ _ (ground (arith, new)) (
          IsSent-yield_alerts takes_empty budget alerts
            (record (mark_sent a.alert_id s) { last_ts = later s.last_ts a.timestamp })))
        (λ old. IsSent-yield_alerts takes_empty (suc budget) alerts s)

  -- A round: at most fifty alerts, each of another id, none of them sent before; and the set has their
  -- ids too, as long as it has no more than ten thousand.
  pub record IsRound (before after : List String) (sent : List (Sent A)) : Type 0 where
    pub within : length sent ≤ 50
    pub once : NoRepeat (ids_of sent)
    pub unsent : (id : String) → occurs id (ids_of sent) ≡ true → occurs id before ≡ false
    pub kept : length (before ++ ids_of sent) ≤ 10000 → after ≡ before ++ ids_of sent

  IsRound-trim_sent :
      (set_order : List String → List String) (before : List String) (sent : List (Sent A))
      (s : Stream)
      → IsSent 50 before s.sent_alert_ids sent
      → IsRound before (trim_sent set_order s).sent_alert_ids sent
  IsRound-trim_sent set_order before sent s h = record {
    within = h.within;
    once = h.once;
    unsent = h.unsent;
    kept = λ small.
        trim_sent_small set_order s
          (subst (λ (ids : List String). length ids ≤ 10000) (sym h.kept) small)
        ∙ h.kept;
  }

  -- A round of the stream, wherever its alerts come from and whatever was sent before: it sends at
  -- most fifty alerts, no id twice, and no id that the set of sent ids has; and while that set does
  -- not pass ten thousand ids, it has those of the round too.
  pub push_alerts-IsRound :
      (set_order : List String → List String) (origin : Origin A) (s : Stream)
      → IsRound s.sent_alert_ids
          (push_alerts set_order origin s).1.sent_alert_ids
          (push_alerts set_order origin s).0
  unfolding push_alerts
  push_alerts-IsRound set_order (kafka_queue items) s =
      let h = IsSent-drain_alerts 50 items s in
      record { within = h.within; once = h.once; unsent = h.unsent; kept = λ small. h.kept }
  push_alerts-IsRound set_order (dataset_alerts alerts) s =
      IsRound-trim_sent set_order s.sent_alert_ids _ _ (IsSent-yield_alerts false 50 alerts s)
  push_alerts-IsRound set_order (recent_alerts alerts) s =
      IsRound-trim_sent set_order s.sent_alert_ids _ _ (IsSent-yield_alerts true 50 alerts s)
  push_alerts-IsRound set_order (idle now) s =
      let h = IsSent-none 50 s.sent_alert_ids in
      record { within = h.within; once = h.once; unsent = h.unsent; kept = λ small. h.kept }
