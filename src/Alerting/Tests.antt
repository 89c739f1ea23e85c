-- ===== src/Alerting/Tests.antt =====
-- The alerting layer at concrete alerts.
use sih.Prelude.{
  some-injective, some, Option, false, subst, ◌≤◌, ◌/◌, if◌then◌else◌, ltb, arith, map, ◌∷◌, [],
  List, none, refl, ◌≡◌, String, ℕ,
}
use sih.Dict.Keys.{NoRepeat-erase_key, occurs-erase_key, erase_key, NoRepeat, occurs}
use sih.Alerting.Correlator.Links.{linked, linked_ids, IsSetOrder, Links}
use sih.Alerting.Schema.{high, AlertRecord}
use sih.Alerting.Correlator.{
  remember, post, cap_related, collected, ids_at, postings_at, fresh_ids, evict_old, expire_address,
  shrink, drop_old, new_correlator, process,
}
use sih.Dict.{put, erase, lookup}
use sih.Detectors.{empty, Explanation}
use sih.Prelude.Eq.{string_eq}
use sih.Alerting.Correlator.History.{run-Links, recent_of, run}
use sih.Alerting.Correlator.Window.{named}
use sih.Alerting.Webhook.{payload_of, notify}
use sih.Alerting.Normalizer.Ranges.{normalize_monotone, severity_rank, IsIsotonic}
use sih.Alerting.Normalizer.{calibrated, FlowInfo, normalize}
use sih.Floats.{hundredths}
use sih.Alerting.Dispatch.{notify-normalize}

-- A set that lists its elements by their last addition.
abbrev listed : List String → List String
unfolding erase_key
listed [] = []
listed (x ∷ ids) = x ∷ erase_key x (listed ids)

listed-once : (ids : List String) → NoRepeat (listed ids)
unfolding listed
listed-once [] = tt
listed-once (y ∷ ids) = (
  ground (arith, occurs-erase_key y y (listed ids) (listed-once ids), string_eq.beq_iff y y),
  NoRepeat-erase_key y (listed ids) (listed-once ids),
)

listed-same : (ids : List String) (x : String) → occurs x (listed ids) ≡ occurs x ids
unfolding occurs listed
listed-same [] x = refl
listed-same (y ∷ ids) x = ground (
  arith,
  listed-same ids x,
  occurs-erase_key y x (listed ids) (listed-once ids),
  string_eq.beq_iff x y,
  string_eq.beq_iff y x,
)

listed-IsSetOrder : IsSetOrder listed
listed-IsSetOrder = record { same = listed-same; once = listed-once }

abbrev Alert : Type 0
Alert = AlertRecord ℕ (Explanation ℕ)

abbrev alert : String → ℕ → String → String → Alert
alert id time src dst = record {
  alert_id = id;
  timestamp = time;
  detector = "ddos";
  flow_id = record {
    src_ip = src;
    dst_ip = dst;
    src_port = none;
    dst_port = none;
    protocol = "TCP";
  };
  threat_class = "DDOS";
  severity = high;
  confidence_score = 80;
  evidence = record { features = []; explanation = empty; window_start = none; window_end = none };
  related_alert_ids = [];
}

abbrev earlier : List Alert
earlier =
    alert "a" 10 "x" "y" ∷ alert "b" 200 "y" "z" ∷ alert "c" 250 "z" "" ∷ alert "d" 300 "x" "x" ∷ []

abbrev newest : Alert
newest = alert "e" 400 "x" "z"

program : Unit {0}
unfolding lookup erase put occurs erase_key drop_old shrink expire_address evict_old fresh_ids
    postings_at ids_at collected cap_related post remember process named linked linked_ids run
    listed
program = tt

-- The alert "a" is older than the window of 300; "b" and "c" share "z", "d" shares "x".
three_links :
    (process listed newest (run listed earlier (new_correlator 300))).0.related_alert_ids
    ≡ "d" ∷ "b" ∷ "c" ∷ []
unfolding program
three_links = refl

run-Links_example :
    Links
      (linked_ids 300 400 "x" "z" (map (recent_of listed) earlier))
      []
      (process listed newest (run listed earlier (new_correlator 300))).0.related_alert_ids
run-Links_example =
    run-Links listed 300 earlier newest listed-IsSetOrder
      (omega arith, (omega arith, (omega arith, (omega arith, (omega arith, tt)))))

-- A calibrator that halves a score, loaded for "ddos".
abbrev halved : ℕ → ℕ
halved a = a / 2

abbrev calibrators : List (String × (ℕ → Option ℕ))
calibrators = ("ddos", λ a. some (halved a)) ∷ []

halved_monotone : (a b : ℕ) → ltb b a ≡ false → ltb (halved b) (halved a) ≡ false
halved_monotone a b h = ground arith

calibrators-IsIsotonic :
    (predict : ℕ → Option ℕ)
    → lookup "ddos" calibrators ≡ some predict
    → IsIsotonic hundredths predict
unfolding lookup
calibrators-IsIsotonic predict h =
    subst (IsIsotonic hundredths) (some-injective _ _ h)
      (record { curve = halved; answers = λ a. refl; monotone = halved_monotone })

abbrev info : FlowInfo
info = record {
  src_ip = some "x";
  dst_ip = none;
  src_port = some 4000;
  dst_port = none;
  protocol = none;
}

abbrev scored_alert : ℕ → AlertRecord ℕ (Explanation ℕ)
scored_alert raw =
    normalize hundredths (λ s. s) calibrators "id" "ddos" raw [] empty info 5 none none

normalize_monotone_example :
    (ltb (scored_alert 180).confidence_score (scored_alert 90).confidence_score ≡ false)
    × (severity_rank (scored_alert 90).severity ≤ severity_rank (scored_alert 180).severity)
normalize_monotone_example =
    normalize_monotone hundredths (λ s. s) calibrators "id" "ddos" [] empty info 5 none none 90 180
      calibrators-IsIsotonic refl

notify-normalize_example : notify (some "http://hook") (scored_alert 160) ≡ (
    if ltb (calibrated hundredths calibrators "ddos" 160) 75
    then none
    else some ("http://hook", payload_of (scored_alert 160)))
notify-normalize_example =
    notify-normalize hundredths (λ s. s) calibrators "id" "ddos" [] empty info 5 none none
      "http://hook" 160 refl
