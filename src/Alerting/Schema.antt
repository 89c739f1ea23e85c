-- ===== src/Alerting/Schema.antt =====
-- alerting/schema.py: the alert record. `S` is the type of scores and feature values, `X` that of the
-- explanations; a time is a whole number of ticks.
use sih.Prelude.{false, true, Bool, ℕ, String, Option, List}

pub data Severity : Type 0 where
  low medium high critical : Severity

-- Equality of the texts
abbrev pub same_severity : Severity → Severity → Bool
same_severity low low = true
same_severity medium medium = true
same_severity high high = true
same_severity critical critical = true
same_severity _ _ = false

pub record FlowId : Type 0 where
  pub src_ip : String
  pub dst_ip : String
  pub src_port : Option ℕ
  pub dst_port : Option ℕ
  pub protocol : String

pub record Evidence (S X : Type 0) : Type 0 where
  pub features : List (String × S)
  pub explanation : X
  pub window_start : Option ℕ
  pub window_end : Option ℕ

pub record AlertRecord (S X : Type 0) : Type 0 where
  pub alert_id : String
  pub timestamp : ℕ
  pub detector : String
  pub flow_id : FlowId
  pub threat_class : String
  pub severity : Severity
  pub confidence_score : S
  pub evidence : Evidence S X
  pub related_alert_ids : List String
