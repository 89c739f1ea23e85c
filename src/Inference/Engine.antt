-- ===== src/Inference/Engine.antt =====
-- ONNXInferenceEngine and SessionCache of inference/onnx_engine.py. The files are those that exist in
-- the model directory, and a session of onnxruntime is a parameter.
pub mod Sessions
mod Tests
use sih.Dict.{lookup, put}
use sih.Prelude.Eq.{string_eq}
use sih.Floats.{Floats}
use Prim.Native.Char.{code}
use sih.Prelude.{◌∷◌, [], List, some, none, Option, Bool, String, ◌+◌, ℕ, if◌then◌else◌, nat_beq}

-- The labels 1 and -1
pub data OnnxLabel : Type 0 where
  inlier outlier : OnnxLabel

-- `res[1]` of a classifier: no rows; a first row that is no dict; a dict, with its value under 1; or
-- an exception, of the run or of the truth value of an array.
pub data ClassOutput (F : Type 0) : Type 0 where
  no_rows : ClassOutput F
  plain_row : ClassOutput F
  class_dict : Option F → ClassOutput F
  raises : ClassOutput F

pub record OnnxSession (F : Type 0) : Type 0 where
  pub run_classes : List F → ClassOutput F
  pub run_label : List F → Option (OnnxLabel × F)

abbrev pub model_map : List (String × String)
model_map =
    ("ddos", "ddos_lgbm")
    ∷ ("beaconing", "beaconing_ocsvm")
    ∷ ("dga", "dga_gbt")
    ∷ ("encrypted", "encrypted_rf")
    ∷ ("recon", "recon_iso")
    ∷ ("exfil", "exfil_iso")
    ∷ ("ddos_lgbm", "ddos_lgbm")
    ∷ ("beaconing_ocsvm", "beaconing_ocsvm")
    ∷ ("dga_gbt", "dga_gbt")
    ∷ ("encrypted_rf", "encrypted_rf")
    ∷ ("recon_iso", "recon_iso")
    ∷ ("exfil_iso", "exfil_iso")
    ∷ []

-- self.MODEL_MAP.get(name, name)
unfoldable pub canonical_of : String → String
unfolding lookup
canonical_of name = elim (lookup name model_map) [ none ↦ name | some canonical ↦ canonical ]

-- canonical.split('_')[0]; the code of '_' is 95
unfoldable pub alias_of : String → String
alias_of String.[] = String.[]
alias_of (String.◌∷◌ c text) =
    let rest = alias_of text in if nat_beq (code c) 95 then String.[] else String.◌∷◌ c rest

-- `loads` is the number of sessions that were made.
pub record Engine (S : Type 0) : Type 0 where
  pub loaded_sessions : List (String × S)
  pub loads : ℕ

abbrev pub new_engine : {S : Type 0} → Engine S
new_engine = record { loaded_sessions = []; loads = 0 }

-- Whether the file of a model exists, and what loading it gives; `none` is an exception.
pub record Directory (S : Type 0) : Type 0 where
  pub exists_file : String → Bool
  pub load : String → Option S

module _ {S : Type 0} where
  -- __contains__
  abbrev pub contains : Directory S → String → Bool
  unfolding canonical_of
  contains dir name = dir.exists_file (canonical_of name)

  unfoldable pub keep_loaded : String → Option S → Engine S → Option S × Engine S
  unfolding put alias_of
  keep_loaded canonical none e = (none, e)
  keep_loaded canonical (some sess) e = (
    some sess,
    record {
      loaded_sessions = put (alias_of canonical) sess (put canonical sess e.loaded_sessions);
      loads = e.loads + 1;
    },
  )

  unfoldable pub get_loaded : Directory S → String → Option S → Engine S → Option S × Engine S
  unfolding keep_loaded
  get_loaded dir canonical (some sess) e = (some sess, e)
  get_loaded dir canonical none e =
      if dir.exists_file canonical then keep_loaded canonical (dir.load canonical) e else (none, e)

  unfoldable pub get_session : Directory S → String → Engine S → Option S × Engine S
  unfolding canonical_of get_loaded lookup
  get_session dir name e =
      get_loaded dir (canonical_of name) (lookup (canonical_of name) e.loaded_sessions) e

  -- SessionCache.keys
  unfoldable pub session_keys : Directory S → List (String × String) → List String
  unfolding canonical_of
  session_keys dir [] = []
  session_keys dir ((name, canonical) ∷ names) =
      let rest = session_keys dir names in
      if dir.exists_file (canonical_of name) then name ∷ rest else rest

module _ (fl : Floats) where
  open fl use {F, lit}

  abbrev Sess : Type 0
  Sess = OnnxSession F

  -- `float(probs[0].get(1, 0.0))`, or 0.0
  abbrev class_probability : ClassOutput F → Option F
  class_probability no_rows = some (lit 0)
  class_probability plain_row = some (lit 0)
  class_probability (class_dict none) = some (lit 0)
  class_probability (class_dict (some p)) = some p
  class_probability raises = none

  abbrev class_of : List F → Option Sess → Option F
  class_of row none = some (lit 0)
  class_of row (some sess) = class_probability (sess.run_classes row)

  abbrev label_only : Option (OnnxLabel × F) → Option OnnxLabel
  label_only none = none
  label_only (some (label, score)) = some label

  abbrev label_result : List F → Option Sess → Option OnnxLabel
  label_result row none = some inlier
  label_result row (some sess) = label_only (sess.run_label row)

  abbrev scored_label : List F → Option Sess → Option (OnnxLabel × F)
  scored_label row none = some (inlier, lit 0)
  scored_label row (some sess) = sess.run_label row

  -- The result, `none` for an exception, with the engine after the call.
  abbrev with_session :
      {A : Type 0}
      → Directory Sess
      → String
      → (Option Sess → Option A)
      → Engine Sess
      → Option A × Engine Sess
  unfolding get_session
  with_session dir name predict e = let got = get_session dir name e in (predict got.0, got.1)

  unfoldable pub predict_ddos : Directory Sess → F → F → Engine Sess → Option F × Engine Sess
  unfolding with_session
  predict_ddos dir syn_ratio pkt_ewma =
      with_session dir "ddos_lgbm" (class_of (syn_ratio ∷ pkt_ewma ∷ []))

  unfoldable pub predict_beaconing :
      Directory Sess → F → F → Engine Sess → Option (OnnxLabel × F) × Engine Sess
  unfolding with_session
  predict_beaconing dir cv mean_iat =
      with_session dir "beaconing_ocsvm" (scored_label (cv ∷ mean_iat ∷ []))

  unfoldable pub predict_dga_gbt : Directory Sess → F → F → F → Engine Sess → Option F × Engine Sess
  unfolding with_session
  predict_dga_gbt dir avg_len avg_ent nxdomain =
      with_session dir "dga_gbt" (class_of (avg_len ∷ avg_ent ∷ nxdomain ∷ []))

  unfoldable pub predict_encrypted_rf :
      Directory Sess → F → F → F → F → Engine Sess → Option F × Engine Sess
  unfolding with_session
  predict_encrypted_rf dir mean_sz var_sz mean_ipt sni_len =
      with_session dir "encrypted_rf" (class_of (mean_sz ∷ var_sz ∷ mean_ipt ∷ sni_len ∷ []))

  unfoldable pub predict_recon_iso :
      Directory Sess → F → F → Engine Sess → Option OnnxLabel × Engine Sess
  unfolding with_session
  predict_recon_iso dir syn_ratio scan_activity =
      with_session dir "recon_iso" (label_result (syn_ratio ∷ scan_activity ∷ []))

  unfoldable pub predict_exfil_iso :
      Directory Sess → F → F → F → Engine Sess → Option OnnxLabel × Engine Sess
  unfolding with_session
  predict_exfil_iso dir out_in_ratio out_bytes in_bytes =
      with_session dir "exfil_iso" (label_result (out_in_ratio ∷ out_bytes ∷ in_bytes ∷ []))
