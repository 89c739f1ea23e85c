-- ===== src/Detectors/Loading/Tests.antt =====
-- The LSTM of the classifier, with a number for a loaded network.
use sih.Prelude.{false, ◌≡◌, refl, some, none, List, [], ◌∷◌, ℕ, ◌+◌, true, length}
use sih.Detectors.Loading.{indices_of, Files, DgaClassifier, predict_domain_string, probability}
use sih.Detectors.Loading.Once.{predict_domain_string_once, verdict}

abbrev disk : Files ℕ
disk = record { exists = λ path. true; load = λ path. some 3 }

abbrev lazy : DgaClassifier ℕ ℕ
lazy = record { gbt_model = none; lstm_model = none; lstm_model_path = some "lstm.pt" }

abbrev run_lstm : ℕ → List ℕ → ℕ
run_lstm lstm indices = lstm + length indices

abbrev emptied : Files ℕ
emptied = record { exists = λ path. false; load = λ path. none }

predict_domain_string_once_example :
    let called = predict_domain_string 0 run_lstm disk (97 ∷ []) lazy in
    (called.0 ≡ verdict 0 run_lstm (some 3) (indices_of (97 ∷ [])))
    × (called.1.lstm_model ≡ some 3)
    × ((predict_domain_string 0 run_lstm emptied (98 ∷ 300 ∷ 99 ∷ []) called.1).0
        ≡ verdict 0 run_lstm (some 3) (indices_of (98 ∷ 300 ∷ 99 ∷ [])))
    × (called.1.gbt_model ≡ none)
    × (called.1.lstm_model_path ≡ some "lstm.pt")
predict_domain_string_once_example =
    predict_domain_string_once 0 run_lstm disk emptied (97 ∷ []) (98 ∷ 300 ∷ 99 ∷ []) lazy

-- The character over 255 is left out.
scored_domain :
    (predict_domain_string 0 run_lstm disk (98 ∷ 300 ∷ 99 ∷ []) lazy).0 ≡ (5, probability 5)
unfolding predict_domain_string indices_of
scored_domain = refl
