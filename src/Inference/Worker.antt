-- ===== src/Inference/Worker.antt =====
-- InferenceWorker of inference/worker.py: the loop from a message to batches, and a flush of the
-- batches into alerts. Kafka's consumer is the sequence of its messages and its producer the list of
-- what it was given. A body that is not UTF-8 ends the loop by an exception: it is no message here.
pub mod Batches
use sih.Floats.{Floats}
use sih.Inference.Models.{RawRecord, Session, predict_batch, extract_features_for_model, get_number}
use sih.Alerting.Normalizer.{normalize, Calibrators, FlowInfo}
use sih.Alerting.Correlator.{process, AlertCorrelator}
use sih.Alerting.ClickHouse.{ClickHouseAlertStore, append, close}
use sih.Prelude.{
  map, get_elem?, ◌++◌, ◌∷◌, [], List, some, none, Option, ◌||◌, ◌&&◌, not, false, Bool, String,
  suc, ℕ, length, if◌then◌else◌, leb,
}
use sih.Alerting.Schema.{AlertRecord}
use sih.Dict.{lookup}
use sih.Prelude.Eq.{◌==◌, string_eq}

-- What a poll gives: nothing, an error or text that is not JSON; JSON that is not an object; a record.
pub data Polled (F : Type 0) : Type 0 where
  no_record : Polled F
  no_object : Polled F
  polled : RawRecord F → Polled F

abbrev pub Batched : Type 0 → Type 0
Batched A = List (String × List A)

module _ {A : Type 0} where
  -- {m: [] for m in self.model_mgr.sessions}
  abbrev pub no_batches : List String → Batched A
  no_batches [] = []
  no_batches (name ∷ names) = (name, []) ∷ no_batches names

  -- pending[model_name].append(a)
  unfoldable pub append_at : String → A → Batched A → Batched A
  append_at name a [] = []
  append_at name a ((key, batch) ∷ pending) =
      let rest = append_at name a pending in
      if key == name then (key, batch ++ a ∷ []) ∷ pending else (key, batch) ∷ rest

  unfoldable pub any_full : ℕ → Batched A → Bool
  any_full size [] = false
  any_full size ((key, batch) ∷ pending) = leb size (length batch) || any_full size pending

  unfoldable pub batch_at : String → Batched A → List A
  unfolding lookup
  batch_at name pending = elim (lookup name pending) [ none ↦ [] | some batch ↦ batch ]

-- The two dictionaries of the loop.
pub record Pending (F : Type 0) : Type 0 where
  pub features : Batched (List F)
  pub meta : Batched (RawRecord F)

module _ (fl : Floats) where
  open fl use {F, lt, lit}

  -- The text f"ONNX {model_name} anomaly score={score:.3f}", by its parts
  abbrev pub Alert : Type 0
  Alert = AlertRecord F (String × F)

  pub record Worker : Type 0 where
    pub correlator : AlertCorrelator
    pub store : ClickHouseAlertStore F (String × F)
    pub produced : List Alert
    pub made : ℕ

  -- What the worker runs with. The n-th alert has the id `new_id n`; `inserts n` says whether an
  -- insert that its append makes works, `accepts` whether the producer takes it (it raises when its
  -- queue is full), `in_time` whether a prediction comes within two seconds.
  pub record Setting : Type 0 where
    pub sessions : List (String × Session fl)
    pub batch_size : ℕ
    pub calibrators : Calibrators fl
    pub upper : String → String
    pub set_order : List String → List String
    pub new_id : ℕ → String
    pub now : ℕ
    pub inserts : ℕ → Bool
    pub accepts : Alert → Bool
    pub in_time : String → Bool

  abbrev pub or_port : Option ℕ → Option ℕ
  or_port none = some 0
  or_port (some port) = some port

  abbrev or_text : String → Option String → Option String
  or_text default none = some default
  or_text default (some text) = some text

  abbrev or_time : ℕ → Option ℕ → ℕ
  or_time now none = now
  or_time now (some time) = time

  abbrev pub flow_info_of : RawRecord F → FlowInfo
  flow_info_of meta = record {
    src_ip = or_text "0.0.0.0" meta.src_ip;
    dst_ip = or_text "0.0.0.0" meta.dst_ip;
    src_port = or_port meta.src_port;
    dst_port = or_port meta.dst_port;
    protocol = or_text "TCP" meta.protocol;
  }

  unfoldable pub feature_values : RawRecord F → List (String × F)
  feature_values meta =
      ("pkt_rate_1s", get_number fl "pkt_rate_1s" meta)
      ∷ ("byte_rate_1s", get_number fl "byte_rate_1s" meta)
      ∷ ("syn_rate_1s", get_number fl "syn_rate_1s" meta)
      ∷ ("flow_duration", get_number fl "flow_duration" meta)
      ∷ ("flow_pkt_count", get_number fl "flow_pkt_count" meta)
      ∷ []

  unfoldable pub alert_of : Setting → ℕ → String → F → RawRecord F → Alert
  unfolding feature_values
  alert_of env n model_name score meta =
      normalize fl env.upper env.calibrators (env.new_id n) model_name score (feature_values meta)
        (model_name, score) (flow_info_of meta) (or_time env.now meta.timestamp) none none

  -- correlate, store and produce
  unfoldable pub emit : Setting → Alert → Worker → Worker
  emit env alert w =
      let correlated = process env.set_order alert w.correlator in
      record {
        correlator = correlated.1;
        store = append (env.inserts w.made) correlated.0 w.store;
        produced =
            (if env.accepts correlated.0 then w.produced ++ correlated.0 ∷ [] else w.produced);
        made = suc w.made;
      }

  abbrev refuses : Setting → Alert → Worker → Bool
  refuses env alert w = not (env.accepts (process env.set_order alert w.correlator).0)

  abbrev pub is_alert : F × Bool → Bool
  is_alert (score, is_anomaly) = is_anomaly && lt (lit 50) score

  -- What is done for a result that is an alert: its index may be out of the range of the records, and
  -- the producer may refuse. Each is an exception, which leaves the loop.
  unfoldable pub emit_found :
      Setting → String → F → Option (RawRecord F) → (Worker → Worker) → Worker → Worker
  unfolding alert_of emit
  emit_found env name score none next w = w
  emit_found env name score (some meta) next w =
      let alert = alert_of env w.made name score meta in
      let emitted = emit env alert w in if refuses env alert w then emitted else next emitted

  -- The loop over the results of a model.
  unfoldable pub emit_results :
      Setting → String → List (RawRecord F) → ℕ → List (F × Bool) → Worker → Worker
  unfolding emit_found
  emit_results env name metas idx [] w = w
  emit_results env name metas idx (r ∷ results) w =
      let next : Worker → Worker = emit_results env name metas (suc idx) results in
      if is_alert r then emit_found env name r.0 (get_elem? metas idx) next w else next w

  -- A model with an empty batch is not asked; one that is late gives no results.
  unfoldable pub flush_model :
      Setting → String → List (List F) → List (RawRecord F) → Worker → Worker
  unfolding emit_results
  flush_model env name [] metas w = w
  flush_model env name (feats ∷ batch) metas w =
      if env.in_time name
      then emit_results env name metas 0 (predict_batch fl env.sessions name (feats ∷ batch)) w
      else w

  unfoldable pub flush_batch : Setting → Batched (List F) → Batched (RawRecord F) → Worker → Worker
  unfolding flush_model batch_at
  flush_batch env [] metas w = w
  flush_batch env ((name, batch) ∷ pending) metas w =
      flush_batch env pending metas (flush_model env name batch (batch_at name metas) w)

  abbrev pub no_pending : Setting → Pending F
  no_pending env =
      let names = map (λ (s : String × Session fl). s.0) env.sessions in
      record { features = no_batches names; meta = no_batches names }

  -- `if feats:`
  unfoldable pub add_features : String → Option (List F) → RawRecord F → Pending F → Pending F
  unfolding append_at
  add_features name none r p = p
  add_features name (some []) r p = p
  add_features name (some (a ∷ feats)) r p = record {
    features = append_at name (a ∷ feats) p.features;
    meta = append_at name r p.meta;
  }

  -- The loop over the models.
  unfoldable pub collect : List (String × Session fl) → RawRecord F → Pending F → Pending F
  unfolding add_features
  collect [] r p = p
  collect ((name, session) ∷ sessions) r p =
      collect sessions r (add_features name (extract_features_for_model fl name r) r p)

  unfoldable pub flush_full : Setting → Pending F × Worker → Pending F × Worker
  unfolding flush_batch any_full
  flush_full env (p, w) =
      if any_full env.batch_size p.features
      then (no_pending env, flush_batch env p.features p.meta w)
      else (p, w)

  -- A round of the loop.
  unfoldable pub receive : Setting → Polled F → Pending F × Worker → Pending F × Worker
  unfolding collect flush_full
  receive env no_record (p, w) = (p, w)
  receive env no_object (p, w) = flush_full env (p, w)
  receive env (polled r) (p, w) = flush_full env (collect env.sessions r p, w)

  unfoldable pub receive_all : Setting → List (Polled F) → Pending F × Worker → Pending F × Worker
  unfolding receive
  receive_all env [] s = s
  receive_all env (m ∷ messages) s = receive_all env messages (receive env m s)

  -- After the loop: `any(pending.values())` asks for a batch that is not empty.
  unfoldable pub end_run : Setting → Pending F × Worker → Worker
  unfolding flush_batch any_full
  end_run env (p, w) =
      let flushed = if any_full 1 p.features then flush_batch env p.features p.meta w else w in
      record flushed { store = close (env.inserts flushed.made) flushed.store }

  unfoldable pub run : Setting → List (Polled F) → Worker → Worker
  unfolding receive_all end_run
  run env messages w = end_run env (receive_all env messages (no_pending env, w))
