-- ===== src/Detectors/Loading/Once.antt =====
-- That the LSTM of the classifier is loaded once and then used, whatever becomes of its file.
use sih.Detectors.Loading.{
  indices_of, ◌==◌, DgaClassifier, Files, predict_domain_string, Verdict, probability, empty_domain,
  not_loaded,
}
use sih.Prelude.{
  ◌∙◌, ap₂, ap, sym, refl, if◌then◌else◌, arith, ◌≡◌, Option, some, none, List, [], ◌∷◌, String, ℕ,
}
use sih.Prelude.Eq.{string_eq}

-- The network that a call has: the one in memory, or else the one that the files give for the path.
abbrev on_disk : {L : Type 0} → Files L → Option String → Option L
on_disk files none = none
on_disk files (some path) =
    if path == "" then none else if files.exists path then files.load path else none

abbrev or_on_disk : {L : Type 0} → Option L → Option L → Option L
or_on_disk none lstm = lstm
or_on_disk (some lstm) _ = some lstm

abbrev pub network : {G L : Type 0} → Files L → DgaClassifier G L → Option L
network files c = or_on_disk c.lstm_model (on_disk files c.lstm_model_path)

module _ {L F : Type 0} (zero_score : F) (prob : L → List ℕ → F) where
  abbrev with_network : L → List ℕ → F × Verdict F
  with_network lstm [] = (zero_score, empty_domain)
  with_network lstm (i ∷ indices) = (prob lstm (i ∷ indices), probability (prob lstm (i ∷ indices)))

  -- The answer for the indices of a domain.
  abbrev pub verdict : Option L → List ℕ → F × Verdict F
  verdict none indices = (zero_score, not_loaded)
  verdict (some lstm) indices = with_network lstm indices

  predict_domain_string-network :
      {G : Type 0} (files : Files L) (domain : List ℕ) (c : DgaClassifier G L)
      → (let called = predict_domain_string zero_score prob files domain c in
          (called.0 ≡ verdict (network files c) (indices_of domain))
          × (called.1.lstm_model ≡ network files c)
          × (called.1.gbt_model ≡ c.gbt_model)
          × (called.1.lstm_model_path ≡ c.lstm_model_path))
  unfolding predict_domain_string
  predict_domain_string-network files domain c = ground arith

  or_on_disk_twice :
      (lstm disk other : Option L)
      → or_on_disk (or_on_disk lstm disk) (or_on_disk lstm other)
        ≡ or_on_disk (or_on_disk lstm disk) other
  or_on_disk_twice none disk other = refl
  or_on_disk_twice (some lstm) disk other = refl

  -- A call answers with the LSTM in memory, or else with the one that the files give, for the
  -- characters below 256, and says so where there is none or no such character. It keeps that LSTM:
  -- a later call, whatever the files have become, answers with it, and looks at the files only if
  -- there was none. The other model and the path stay as they are.
  pub predict_domain_string_once :
      {G : Type 0} (files files' : Files L) (first second : List ℕ) (c : DgaClassifier G L)
      → (let called = predict_domain_string zero_score prob files first c in
          (called.0 ≡ verdict (network files c) (indices_of first))
          × (called.1.lstm_model ≡ network files c)
          × ((predict_domain_string zero_score prob files' second called.1).0
              ≡ verdict (or_on_disk (network files c) (network files' c)) (indices_of second))
          × (called.1.gbt_model ≡ c.gbt_model)
          × (called.1.lstm_model_path ≡ c.lstm_model_path))
  predict_domain_string_once files files' first second c =
      let called = predict_domain_string zero_score prob files first c in
      let one = predict_domain_string-network files first c in
      let two = predict_domain_string-network files' second called.1 in
      let had : network files' called.1 ≡ or_on_disk (network files c) (network files' c) =
        ap₂ (λ (m : Option L) (path : Option String). or_on_disk m (on_disk files' path)) one.1
          one.3
        ∙ sym (
            or_on_disk_twice c.lstm_model (on_disk files c.lstm_model_path)
              (on_disk files' c.lstm_model_path)) in
      (one.0, one.1, two.0 ∙ ap (λ (m : Option L). verdict m (indices_of second)) had, one.2, one.3)
