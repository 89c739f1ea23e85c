-- ===== src/Features/Sweep.antt =====
-- sweep_stale_state, which features/ddos_features.py and features/beaconing_features.py both have:
-- the keys of the stale entries, and then a `del` of each. `last_time` reads the time of an entry.
pub mod Fresh
use sih.Dict.{erase}
use sih.Prelude.Eq.{string_eq}
use sih.Prelude.{◌-◌, ◌∷◌, [], List, Bool, String, ◌+◌, ℕ, if◌then◌else◌, ltb}

module _ {V : Type 0} (last_time : V → ℕ) where
  -- `current_time - data['last_time'] > ttl`
  abbrev pub is_stale : ℕ → ℕ → V → Bool
  is_stale now ttl data_of = ltb (last_time data_of + ttl) now

  unfoldable pub stale_keys : ℕ → ℕ → List (String × V) → List String
  stale_keys now ttl [] = []
  stale_keys now ttl ((key, data_of) ∷ state) =
      let rest = stale_keys now ttl state in if is_stale now ttl data_of then key ∷ rest else rest

  unfoldable pub delete_keys : List String → List (String × V) → List (String × V)
  delete_keys [] state = state
  delete_keys (key ∷ keys) state = delete_keys keys (erase key state)

  unfoldable pub sweep_stale_state : ℕ → ℕ → List (String × V) → List (String × V)
  unfolding stale_keys delete_keys
  sweep_stale_state now ttl state = delete_keys (stale_keys now ttl state) state
