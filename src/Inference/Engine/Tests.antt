-- ===== src/Inference/Engine/Tests.antt =====
-- The engine over a directory with the models for DDoS and DGA, the second of which cannot be loaded.
use sih.Prelude.Eq.{string_eq, ◌==◌}
use sih.Prelude.{◌∷◌, [], some, none, ◌||◌, refl, ◌≡◌, ℕ, if◌then◌else◌}
use sih.Inference.Engine.{
  get_loaded, keep_loaded, new_engine, alias_of, Directory, get_session, canonical_of,
}
use sih.Dict.{put, lookup}

abbrev dir : Directory ℕ
dir = record {
  exists_file = λ name. name == "ddos_lgbm" || name == "dga_gbt";
  load = λ name. if name == "ddos_lgbm" then some 7 else none;
}

program : Unit {0}
unfolding canonical_of alias_of keep_loaded get_loaded get_session lookup put
program = tt

kept :
    get_session dir "ddos_lgbm" new_engine
    ≡ (some 7, record { loaded_sessions = ("ddos_lgbm", 7) ∷ ("ddos", 7) ∷ []; loads = 1 })
unfolding program
kept = refl

-- A model that cannot be loaded is tried again at every call.
failing : get_session dir "dga" new_engine ≡ (none, new_engine)
unfolding program
failing = refl
