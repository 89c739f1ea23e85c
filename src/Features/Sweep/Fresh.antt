-- ===== src/Features/Sweep/Fresh.antt =====
-- What a sweep leaves of a dictionary.
use sih.Dict.{lookup, erase, Distinct}
use sih.Prelude.Eq.{string_eq}
use sih.Dict.Keys.{occurs}
use sih.Prelude.{
  false, inr, inl, Bool-cases, arith, ◌∷◌, [], List, some, none, Option, ◌∙◌, refl, ◌≡◌, String, ℕ,
  if◌then◌else◌,
}
use sih.Features.Sweep.{delete_keys, sweep_stale_state, is_stale, stale_keys}
use sih.Dict.Laws.{lookup-erase, Distinct-erase}

module _ {V : Type 0} (last_time : V → ℕ) where
  lookup-delete_keys :
      (keys : List String) (j : String) (state : List (String × V))
      → Distinct state
      → lookup j (delete_keys last_time keys state)
        ≡ (if occurs j keys then none else lookup j state)
  unfolding delete_keys occurs
  lookup-delete_keys [] j state h = refl
  lookup-delete_keys (key ∷ keys) j state h = ground (
    arith,
    lookup-delete_keys keys j (erase key state) (Distinct-erase key state h),
    lookup-erase key j state h,
  )

  abbrev pub fresh_only : ℕ → ℕ → Option V → Option V
  fresh_only now ttl none = none
  fresh_only now ttl (some data_of) =
      if is_stale last_time now ttl data_of then none else some data_of

  occurs-stale_keys_absent :
      (now ttl : ℕ) (j : String) (state : List (String × V))
      → lookup j state ≡ none
      → occurs j (stale_keys last_time now ttl state) ≡ false
  unfolding stale_keys occurs lookup
  occurs-stale_keys_absent now ttl j [] h = refl
  occurs-stale_keys_absent now ttl j ((key, data_of) ∷ state) h = ground (
    arith,
    occurs-stale_keys_absent now ttl j state,
    string_eq.beq_iff key j,
    string_eq.beq_iff j key,
  )

  occurs-stale_keys :
      (now ttl : ℕ) (j : String) (state : List (String × V))
      → Distinct state
      → (if occurs j (stale_keys last_time now ttl state) then none else lookup j state)
        ≡ fresh_only now ttl (lookup j state)
  unfolding stale_keys occurs lookup
  occurs-stale_keys now ttl j [] h = refl
  occurs-stale_keys now ttl j ((key, data_of) ∷ state) h =
      elim (Bool-cases (is_stale last_time now ttl data_of)) [
        | inl stale ↦ ground (
          arith,
          stale,
          occurs-stale_keys now ttl j state h.1,
          string_eq.beq_iff key j,
          string_eq.beq_iff j key,
        )
        | inr fresh ↦ ground (
          arith,
          fresh,
          occurs-stale_keys now ttl j state h.1,
          occurs-stale_keys_absent now ttl key state h.0,
          string_eq.beq_iff key j,
          string_eq.beq_iff j key,
        )
      ]

  -- A sweep of a dictionary keeps, under every key, the entry that is at most `ttl` old, and removes
  -- the one that is older.
  pub lookup-sweep_stale_state :
      (now ttl : ℕ) (j : String) (state : List (String × V))
      → Distinct state
      → lookup j (sweep_stale_state last_time now ttl state) ≡ fresh_only now ttl (lookup j state)
  unfolding sweep_stale_state
  lookup-sweep_stale_state now ttl j state h =
      lookup-delete_keys (stale_keys last_time now ttl state) j state h
      ∙ occurs-stale_keys now ttl j state h
