-- ===== src/Inference/Tests.antt =====
-- The worker at concrete messages.
use sih.Floats.{hundredths}
use sih.Inference.Worker.{
  add_features, batch_at, append_at, alert_of, emit, emit_found, emit_results, flush_model,
  flush_batch, flush_full, end_run, collect, receive, no_pending, receive_all, Polled, run, Worker,
  any_full, Setting, polled, no_record, no_object,
}
use sih.Inference.Models.{
  predict_batch, extract_features_for_model, RawRecord, Session, probabilities, labels,
}
use sih.Prelude.{arith, map, ◌∷◌, [], List, some, none, false, true, refl, ◌≡◌, String, ℕ, take}
use sih.Alerting.ClickHouse.{new_store}
use sih.Inference.Worker.Batches.{receive_all-IsBatching, IsBatching}
use sih.Alerting.Correlator.{process, new_correlator}
use sih.Alerting.Normalizer.{normalize}

abbrev features_of : ℕ → String → RawRecord ℕ
features_of rate src = record {
  numbers = ("pkt_rate_1s", rate) ∷ [];
  is_port_scan = none;
  src_ip = some src;
  dst_ip = none;
  src_port = none;
  dst_port = some 80;
  protocol = none;
  timestamp = some 40;
}

-- The rate is the probability.
abbrev class_session : Session hundredths
class_session rows = probabilities (map (λ row. 0 ∷ take 1 row) rows)

-- Every row has the label -1.
abbrev label_session : Session hundredths
label_session rows = labels (map (λ row. true) rows)

abbrev env : Setting hundredths
env = record {
  sessions = ("ddos", class_session) ∷ ("dga", label_session) ∷ ("exfil", label_session) ∷ [];
  batch_size = 2;
  calibrators = [];
  upper = λ text. text;
  set_order = λ ids. ids;
  new_id = λ n. "id";
  now = 50;
  inserts = λ n. true;
  accepts = λ a. true;
  in_time = λ name. true;
}

abbrev idle : Worker hundredths
idle = record {
  correlator = new_correlator 600;
  store = new_store true 500;
  produced = [];
  made = 0;
}

abbrev messages : List (Polled ℕ)
messages =
    polled (features_of 90 "a")
    ∷ no_record
    ∷ no_object
    ∷ polled (features_of 20 "b")
    ∷ polled (features_of 60 "c")
    ∷ []

receive_all-IsBatching_example :
    IsBatching hundredths env
      (receive_all hundredths env messages (no_pending hundredths env, idle)).0
    × (any_full 2 (receive_all hundredths env messages (no_pending hundredths env, idle)).0.features
        ≡ false)
unfolding any_full
receive_all-IsBatching_example =
    receive_all-IsBatching hundredths env messages (no_pending hundredths env) idle (ground arith)
      ((refl, refl, (refl, refl, (refl, refl, tt))), refl)

ended : Worker hundredths
unfolding run receive_all receive collect end_run flush_full flush_batch flush_model emit_results
    emit_found emit alert_of any_full append_at batch_at add_features extract_features_for_model
    predict_batch process normalize
ended = run hundredths env messages idle

-- The model "dga" has no features, so it is never asked.
found :
    map {B = String × String} (λ a. (a.detector, a.flow_id.src_ip)) ended.produced
    ≡ ("ddos", "a") ∷ ("exfil", "a") ∷ ("exfil", "b") ∷ ("ddos", "c") ∷ ("exfil", "c") ∷ []
unfolding ended
found = refl
