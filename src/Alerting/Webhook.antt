-- ===== src/Alerting/Webhook.antt =====
-- WebhookNotifier of alerting/webhook.py. What `notify` hands to requests.post is its result; an
-- exception of the call is only logged.
use sih.Prelude.{some, none, Option, not, false, true, Bool, String, if◌then◌else◌}
use sih.Alerting.Schema.{FlowId, AlertRecord, Severity}
use sih.Alerting.Schema.{low, medium, high, critical}
use sih.Prelude.Eq.{◌==◌, string_eq}

-- The values that the texts of the payload show.
pub record Payload (S X : Type 0) : Type 0 where
  pub severity : Severity
  pub threat_class : String
  pub detector : String
  pub flow_id : FlowId
  pub confidence : S
  pub explanation : X

-- `webhook_url or os.environ.get("ALERT_WEBHOOK_URL")`
abbrev new_notifier : Option String → Option String → Option String
new_notifier none environment = environment
new_notifier (some url) environment = if url == "" then environment else some url

-- `alert.severity not in ["HIGH", "CRITICAL"]`
abbrev pub is_urgent : Severity → Bool
is_urgent low = false
is_urgent medium = false
is_urgent high = true
is_urgent critical = true

abbrev pub payload_of : {S X : Type 0} → AlertRecord S X → Payload S X
payload_of alert = record {
  severity = alert.severity;
  threat_class = alert.threat_class;
  detector = alert.detector;
  flow_id = alert.flow_id;
  confidence = alert.confidence_score;
  explanation = alert.evidence.explanation;
}

unfoldable pub notify :
    {S X : Type 0} → Option String → AlertRecord S X → Option (String × Payload S X)
notify none alert = none
notify (some url) alert =
    if url == ""
    then none
    else if not (is_urgent alert.severity)
    then none
    else some (url, payload_of alert)
