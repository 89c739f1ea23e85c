-- ===== src/Detectors/Loading.antt =====
-- The models that the detectors load: the constructors, and the LSTM of models/dga_classifier.py. What
-- joblib and torch load is a parameter, and `none` where that raises.
pub mod Once
mod Tests
use mathlib.Core.Option
use sih.Prelude.{
  map, arith, ◌≡◌, Option, some, none, List, [], ◌∷◌, String, ℕ, Bool, true, false, not, ◌&&◌,
  if◌then◌else◌, ltb,
}
use sih.Prelude.Eq.{◌==◌, string_eq}

-- What the file system has: whether a path exists, and what loading from it gives.
pub record Files (M : Type 0) : Type 0 where
  pub exists : String → Bool
  pub load : String → Option M

-- `path and os.path.exists(path)`
abbrev pub is_there : {M : Type 0} → Files M → Option String → Bool
is_there files none = false
is_there files (some path) = not (path == "") && files.exists path

abbrev loaded_from : {M : Type 0} → Files M → Option String → Option (Option M)
loaded_from files none = some none
loaded_from files (some path) = Option.map (λ m. some m) (files.load path)

-- A constructor's model, and `none` where joblib raises.
unfoldable pub load_model : {M : Type 0} → Files M → Option String → Option (Option M)
load_model files path = if is_there files path then loaded_from files path else some none

pub record DgaClassifier (G L : Type 0) : Type 0 where
  pub gbt_model : Option G
  pub lstm_model : Option L
  pub lstm_model_path : Option String

module _ {G L : Type 0} where
  unfoldable pub new_classifier :
      Files G → Option String → Option String → Option (DgaClassifier G L)
  unfolding load_model
  new_classifier files gbt_model_path lstm_model_path =
      Option.map
        (λ gbt. record { gbt_model = gbt; lstm_model = none; lstm_model_path = lstm_model_path })
        (load_model files gbt_model_path)

  abbrev with_lstm : DgaClassifier G L → Option L → Bool × DgaClassifier G L
  with_lstm c none = (false, c)
  with_lstm c (some lstm) = (true, record c { lstm_model = some lstm })

  abbrev load_lstm : Files L → DgaClassifier G L → Option String → Bool × DgaClassifier G L
  load_lstm files c none = (false, c)
  load_lstm files c (some path) =
      if not (path == "") && files.exists path then with_lstm c (files.load path) else (false, c)

  abbrev ensure_from : Files L → DgaClassifier G L → Option L → Bool × DgaClassifier G L
  ensure_from files c (some lstm) = (true, c)
  ensure_from files c none = load_lstm files c c.lstm_model_path

  unfoldable pub ensure_lstm_loaded : Files L → DgaClassifier G L → Bool × DgaClassifier G L
  ensure_lstm_loaded files c = ensure_from files c c.lstm_model

-- The text of the answer
pub data Verdict (F : Type 0) : Type 0 where
  not_loaded : Verdict F
  empty_domain : Verdict F
  probability : F → Verdict F

-- [ord(c) for c in domain_str if ord(c) < 256]
unfoldable pub indices_of : List ℕ → List ℕ
indices_of [] = []
indices_of (c ∷ domain) = let rest = indices_of domain in if ltb c 256 then c ∷ rest else rest

module _ {L F : Type 0} (zero_score : F) (prob : L → List ℕ → F) where
  abbrev lstm_score : Option L → List ℕ → F × Verdict F
  lstm_score none indices = (zero_score, not_loaded)
  lstm_score (some lstm) [] = (zero_score, empty_domain)
  lstm_score (some lstm) (c ∷ indices) = let p = prob lstm (c ∷ indices) in (p, probability p)

  abbrev answer_domain :
      {G : Type 0} → List ℕ → Bool × DgaClassifier G L → (F × Verdict F) × DgaClassifier G L
  unfolding indices_of
  answer_domain domain (true, c) = (lstm_score c.lstm_model (indices_of domain), c)
  answer_domain domain (false, c) = ((zero_score, not_loaded), c)

  -- The domain is the list of its code points, and `prob` the run of the LSTM.
  unfoldable pub predict_domain_string :
      {G : Type 0} → Files L → List ℕ → DgaClassifier G L → (F × Verdict F) × DgaClassifier G L
  unfolding ensure_lstm_loaded answer_domain
  predict_domain_string files domain c = answer_domain domain (ensure_lstm_loaded files c)
