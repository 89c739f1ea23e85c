-- ===== src/Detectors/Encrypted/Tests.antt =====
-- The classifier of encrypted traffic at a concrete handshake.
use sih.Detectors.{row_score, first_row, forest_scored, Prediction, Row, is_explained, classifier}
use sih.Prelude.{map, ◌∷◌, [], List, some, refl, ◌≡◌, ℕ, ltb}
use sih.Detectors.Encrypted.{
  or_zero, scored, encrypted_used, encrypted_ml, encrypted_predict, Handshakes,
}
use sih.Detectors.Encrypted.Alarms.{encrypted-IsMatched}
use sih.Floats.{hundredths}
use sih.Detectors.Rules.{as_row}

abbrev handshake : Handshakes ℕ
handshake = record { packet_sizes = 500 ∷ []; packet_ipts = []; sni_length_ewma = 0 }

abbrev certain : List (List ℕ) → List (Row ℕ)
certain = map (λ _. (10, 90 ∷ []))

-- The mean of a list is its first element here.
abbrev first_of : List ℕ → ℕ
first_of [] = 0
first_of (a ∷ rest) = a

abbrev alarm : Prediction ℕ
alarm = record {
  score = 90;
  features_used =
      ("mean_size", 500) ∷ ("var_size", 500) ∷ ("mean_ipt", 0) ∷ ("sni_length_ewma", 0) ∷ [];
  explanation = forest_scored 90;
}

alarm_found :
    encrypted_predict hundredths first_of first_of (some (classifier certain)) handshake
    ≡ some alarm
unfolding encrypted_predict encrypted_ml encrypted_used scored first_row row_score or_zero as_row
alarm_found = refl

encrypted-IsMatched_example : is_explained alarm.explanation ≡ ltb 50 alarm.score
encrypted-IsMatched_example =
    encrypted-IsMatched hundredths first_of first_of (some (classifier certain)) handshake alarm
      alarm_found
