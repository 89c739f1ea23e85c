-- ===== src/Alerting/Dispatch.antt =====
-- From the score of a detector to the webhook: alerting/normalizer.py, then alerting/webhook.py.
use sih.Prelude.Eq.{◌==◌, string_eq}
use sih.Prelude.{arith, some, none, Option, not, false, ◌≡◌, String, ℕ, set, if◌then◌else◌}
use sih.Floats.{Floats}
use sih.Alerting.Normalizer.{calibrated, normalize, FlowInfo, get_severity, Calibrators, clamped}
use sih.Detectors.{Features}
use sih.Alerting.Webhook.{payload_of, notify, is_urgent}
use sih.Alerting.Schema.{AlertRecord}
use sih.Alerting.Normalizer.Ranges.{alert_for}

module _ (fl : Floats) where
  open fl use {F, lt, lit, lt_asym, le_trans, lt_lit}

  get_severity_urgent : (a : F) → is_urgent (get_severity fl a) ≡ not (lt a (lit 75))
  unfolding get_severity
  get_severity_urgent a = ground (
    arith,
    lt_lit 75 90,
    le_trans (lit 75) (lit 90) a,
    le_trans a (lit 90) (lit 75),
    lt_lit 90 75,
  )

  -- The bounds 0 and 1 do not move a score over the threshold.
  clamped_urgent : (a : F) → lt (clamped fl a) (lit 75) ≡ lt a (lit 75)
  unfolding clamped
  clamped_urgent a = ground (
    arith,
    lt_lit 0 75,
    lt_lit 100 75,
    lt_lit 75 100,
    lt_lit 0 100,
    lt_lit 75 0,
    lt_asym a (lit 100),
    lt_asym a (lit 75),
    le_trans (lit 75) (lit 100) a,
    le_trans a (lit 0) (lit 75),
    le_trans (lit 75) a (lit 0),
    le_trans a (lit 75) (lit 100),
    le_trans (lit 100) a (lit 75),
  )

  module _ {X : Type 0} (upper : String → String) (calibrators : Calibrators fl)
      (id detector : String) (values : Features F) (explanation : X) (info : FlowInfo)
      (timestamp : ℕ) (start end : Option ℕ) where
    abbrev alert : F → AlertRecord F X
    alert = alert_for fl upper calibrators id detector values explanation info timestamp start end

    -- With a webhook address that is not empty, `notify` sends the alert of a score exactly where the
    -- calibrated score, before it is clamped, is 0.75 or more, and then sends the alert's own values.
    pub notify-normalize :
        (url : String) (raw : F)
        → (url == "") ≡ false
        → notify (some url) (alert raw) ≡ (
            if lt (calibrated fl calibrators detector raw) (lit 75)
            then none
            else some (url, payload_of (alert raw)))
    unfolding normalize notify
    notify-normalize url raw set = ground (
      arith,
      get_severity_urgent (clamped fl (calibrated fl calibrators detector raw)),
      clamped_urgent (calibrated fl calibrators detector raw),
    )
