-- ===== src/Dashboard/Tests.antt =====
-- The cache and the stream at concrete calls.
use sih.Dashboard.Cache.{
  get_summary_at-call_all, invalidate, new_cache, call_all, get_cached, CacheCall, get_summary_at,
  get_at, invalidated,
}
use sih.Dashboard.Stream.{trim_sent, yield_alerts, push_alerts, Stream, Sent, dataset_alerts}
use sih.Dict.Keys.{occurs}
use sih.Prelude.Eq.{string_eq}
use sih.Prelude.{arith, ◌∷◌, [], List, refl, ◌≡◌, String, ◌<◌, ◌+◌, ℕ}
use sih.Dashboard.Stream.Rounds.{push_alerts-IsRound, IsRound}

abbrev sent_of : String → ℕ → Sent ℕ
sent_of id time = record { alert_id = id; timestamp = time; body = 0 }

abbrev started : Stream
started = record { last_ts = 10; sent_alert_ids = "a" ∷ [] }

abbrev alerts : List (Sent ℕ)
alerts = sent_of "a" 11 ∷ sent_of "b" 12 ∷ sent_of "" 13 ∷ sent_of "b" 14 ∷ sent_of "c" 9 ∷ []

push_alerts-IsRound_example :
    IsRound
      ("a" ∷ [])
      (push_alerts (λ ids. ids) (dataset_alerts alerts) started).1.sent_alert_ids
      (push_alerts (λ ids. ids) (dataset_alerts alerts) started).0
push_alerts-IsRound_example = push_alerts-IsRound (λ ids. ids) (dataset_alerts alerts) started

pushed : push_alerts (λ ids. ids) (dataset_alerts alerts) started ≡ (
  sent_of "b" 12 ∷ sent_of "c" 9 ∷ [],
  record { last_ts = 12; sent_alert_ids = "a" ∷ "b" ∷ "c" ∷ [] },
)
unfolding push_alerts yield_alerts trim_sent occurs
pushed = refl

-- The store answers with the time.
abbrev calls : List CacheCall
calls = get_at 5 ∷ invalidated ∷ get_at 20 ∷ []

get_summary_at-call_all_example :
    ((time : ℕ) × ((get_summary_at 22 22 (call_all (λ t. t) calls (new_cache 3))).0 ≡ time)
      × (22 < time + 3))
    × ((get_summary_at 22 22 (invalidate (call_all (λ t. t) calls (new_cache 3)))).0 ≡ 22)
get_summary_at-call_all_example = get_summary_at-call_all (λ t. t) 3 calls 22 (ground arith)

cached : (get_summary_at 22 22 (call_all (λ t. t) calls (new_cache 3))).0 ≡ 20
unfolding get_summary_at get_cached call_all
cached = refl
