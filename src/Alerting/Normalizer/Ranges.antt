-- ===== src/Alerting/Normalizer/Ranges.antt =====
-- The confidence and the severity that `normalize` gives a score.
use sih.Prelude.{some, Option, inr, inl, String, Option-cases, arith, false, true, ◌≡◌, ◌≤◌, ℕ}
use sih.Alerting.Schema.{AlertRecord, Severity}
use sih.Floats.{Floats}
use sih.Alerting.Normalizer.{normalize, FlowInfo, Calibrators, calibrated, get_severity, clamped}
use sih.Alerting.Schema.{low, medium, high, critical}
use sih.Dict.{lookup}
use sih.Detectors.{Features}
use sih.Prelude.Eq.{string_eq}

abbrev pub severity_rank : Severity → ℕ
severity_rank low = 0
severity_rank medium = 1
severity_rank high = 2
severity_rank critical = 3

module _ (fl : Floats) where
  open fl use {F, lt, lit, lt_asym, le_trans, lt_lit}

  le_lt_trans : (a b c : F) → lt b a ≡ false → lt b c ≡ true → lt a c ≡ true
  le_lt_trans a b c h g = ground (arith, le_trans c a b)

  get_severity_monotone :
      (a b : F)
      → lt b a ≡ false
      → severity_rank (get_severity fl a) ≤ severity_rank (get_severity fl b)
  unfolding get_severity
  get_severity_monotone a b h =
      ground
        (arith, le_lt_trans a b (lit 90) h, le_lt_trans a b (lit 75) h, le_lt_trans a b (lit 50) h)

  clamped_range :
      (a : F) → (lt (clamped fl a) (lit 0) ≡ false) × (lt (lit 100) (clamped fl a) ≡ false)
  unfolding clamped
  clamped_range a =
      ground
        (arith, lt_lit 0 0, lt_lit 100 100, lt_lit 100 0, lt_asym a (lit 100), lt_asym a (lit 0))

  clamped_monotone : (a b : F) → lt b a ≡ false → lt (clamped fl b) (clamped fl a) ≡ false
  unfolding clamped
  clamped_monotone a b h = ground (
    arith,
    lt_lit 0 0,
    lt_lit 100 100,
    lt_lit 100 0,
    lt_lit 0 100,
    le_trans a b (lit 0),
    le_trans a b (lit 100),
    le_trans (lit 0) a b,
    le_trans (lit 100) a b,
    le_lt_trans a b (lit 0) h,
    le_lt_trans a b (lit 100) h,
    lt_asym (lit 0) a,
    lt_asym (lit 0) b,
    lt_asym (lit 100) a,
    lt_asym (lit 100) b,
  )

  -- A calibrator that answers every score, and does not rank two scores the other way round.
  pub record IsIsotonic (predict : F → Option F) : Type 0 where
    pub curve : F → F
    pub answers : (a : F) → predict a ≡ some (curve a)
    pub monotone : (a b : F) → lt b a ≡ false → lt (curve b) (curve a) ≡ false

  calibrated_monotone :
      (calibrators : Calibrators fl) (detector : String) (a b : F)
      → ((predict : F → Option F) → lookup detector calibrators ≡ some predict → IsIsotonic predict)
      → lt b a ≡ false
      → lt (calibrated fl calibrators detector b) (calibrated fl calibrators detector a) ≡ false
  unfolding calibrated
  calibrated_monotone calibrators detector a b iso h =
      elim (Option-cases (lookup detector calibrators)) [
        | inl none_loaded ↦ rw (none_loaded, calibrated) h
        | inr (predict, loaded) ↦
            (let i = iso predict loaded in
              rw (loaded, calibrated, i.answers a, i.answers b) (i.monotone a b h))
      ]

  module _ {X : Type 0} (upper : String → String) (calibrators : Calibrators fl)
      (id detector : String) (values : Features F) (explanation : X) (info : FlowInfo)
      (timestamp : ℕ) (start end : Option ℕ) where
    abbrev pub alert_for : F → AlertRecord F X
    alert_for raw =
        normalize fl upper calibrators id detector raw values explanation info timestamp start end

    -- Whatever a calibrator answers or raises, the confidence of an alert is between 0 and 1.
    normalize-confidence_range :
        (raw : F)
        → (lt (alert_for raw).confidence_score (lit 0) ≡ false)
          × (lt (lit 100) (alert_for raw).confidence_score ≡ false)
    unfolding normalize
    normalize-confidence_range raw = clamped_range (calibrated fl calibrators detector raw)

    -- Where the detector's calibrator, if one is loaded, answers every score and does not reverse the
    -- order of two, an alert for a higher raw score has no lower confidence and no lower severity.
    pub normalize_monotone :
        (a b : F)
        → ((predict : F → Option F)
            → lookup detector calibrators ≡ some predict
            → IsIsotonic predict)
        → lt b a ≡ false
        → (lt (alert_for b).confidence_score (alert_for a).confidence_score ≡ false)
          × (severity_rank (alert_for a).severity ≤ severity_rank (alert_for b).severity)
    unfolding normalize
    normalize_monotone a b iso h =
        let c = clamped_monotone _ _ (calibrated_monotone calibrators detector a b iso h) in
        (c, get_severity_monotone _ _ c)
