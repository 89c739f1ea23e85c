-- ===== src/Datasource/Replay.antt =====
-- The functions of datasource/dataset_replay.py from the loaded records on: the selection by the
-- scenario, and the queue between the replay thread and its reader.
pub mod Samples
use sih.Dict.{lookup, put}
use sih.Prelude.Eq.{◌==◌, string_eq}
use sih.Datasource.Records.{FlowRecord}
use sih.Prelude.{
  ◌++◌, ◌∷◌, [], List, some, none, Option, ◌&&◌, not, false, true, Bool, String, ◌/◌, ◌*◌, ◌-◌, suc,
  zero, ℕ, take, length, if◌then◌else◌, ltb,
}

-- The weights of a scenario, in hundredths.
abbrev Weights : Type 0
Weights = List (String × ℕ)

abbrev scenario_weights : List (String × Weights)
scenario_weights =
    ("random", [])
    ∷ ("massive_ddos", ("SYN_FLOOD", 45) ∷ ("UDP_AMPLIFICATION", 30) ∷ ("BENIGN", 25) ∷ [])
    ∷ (
      "stealth_c2_exfil",
      ("C2_BEACON", 35) ∷ ("DNS_TUNNEL", 30) ∷ ("EXFIL", 15) ∷ ("BENIGN", 20) ∷ [],
    )
    ∷ ("recon_storm", ("PORT_SCAN", 55) ∷ ("RECON", 30) ∷ ("BENIGN", 15) ∷ [])
    ∷ ("quiet_hours", ("BENIGN", 90) ∷ ("PORT_SCAN", 5) ∷ ("C2_BEACON", 5) ∷ [])
    ∷ (
      "coordinated_campaign",
      ("SYN_FLOOD", 25)
          ∷ ("C2_BEACON", 20)
          ∷ ("DNS_TUNNEL", 15)
          ∷ ("PORT_SCAN", 20)
          ∷ ("BENIGN", 20)
          ∷ [],
    )
    ∷ []

-- SCENARIO_WEIGHTS.get(scenario, {})
unfoldable pub weights_of : String → Weights
unfolding lookup
weights_of scenario = elim (lookup scenario scenario_weights) [ none ↦ [] | some weights ↦ weights ]

-- while len(sampled) < target: sampled.extend(pool). On fuel: `none` where it does not suffice.
unfoldable pub extend_until : {R : Type 0} → (fuel target : ℕ) → List R → List R → Option (List R)
extend_until zero target pool sampled = if ltb (length sampled) target then none else some sampled
extend_until (suc n) target pool sampled =
    let rest = extend_until n target pool (sampled ++ pool) in
    if ltb (length sampled) target then rest else some sampled

abbrev cut : {R : Type 0} → ℕ → Option (List R) → Option (List R)
cut target none = none
cut target (some sampled) = some (take target sampled)

-- sampled[:target] after the loop
unfoldable pub sample : {R : Type 0} → ℕ → List R → Option (List R)
unfolding extend_until
sample target pool = cut target (extend_until target target pool [])

abbrev joined : {R : Type 0} → Option (List R) → Option (List R) → Option (List R)
joined none rest = none
joined (some xs) none = none
joined (some xs) (some ys) = some (xs ++ ys)

-- The records by family, `by_family`.
abbrev pub Families : Type 0 → Type 0
Families A = List (String × List (FlowRecord A))

abbrev pub is_listed : Weights → String → Bool
unfolding lookup
is_listed weights family = elim (lookup family weights) [ none ↦ false | some w ↦ true ]

-- `residual // len(unlisted)`; the subtraction stops at 0, as the `max` does
abbrev per_family : (total taken count : ℕ) → ℕ
per_family total taken zero = 0
per_family total taken (suc n) = (total - taken) / suc n

module _ {A : Type 0} where
  unfoldable pub pool_of : String → (Families A) → List (FlowRecord A)
  unfolding lookup
  pool_of family families = elim (lookup family families) [ none ↦ [] | some pool ↦ pool ]

  -- by_family.setdefault(r.attack_family.upper(), []).append(r), for every record
  unfoldable pub group : (String → String) → List (FlowRecord A) → (Families A) → (Families A)
  unfolding pool_of put
  group upper [] families = families
  group upper (r ∷ records) families =
      let family = upper r.attack_family in
      group upper records (put family (pool_of family families ++ r ∷ []) families)

  abbrev sample_pool : ℕ → List (FlowRecord A) → Option (List (FlowRecord A))
  unfolding sample
  sample_pool target [] = some []
  sample_pool target (r ∷ pool) = sample target (r ∷ pool)

  -- The loop over the weights; `target_of` is `int(total * w)`.
  unfoldable pub sample_listed : (ℕ → ℕ) → Weights → (Families A) → Option (List (FlowRecord A))
  unfolding sample_pool pool_of
  sample_listed target_of [] families = some []
  sample_listed target_of ((family, w) ∷ weights) families =
      joined (sample_pool (target_of w) (pool_of family families))
        (sample_listed target_of weights families)

  -- The families that have no weight, each with its own list.
  unfoldable pub unlisted : Weights → (Families A) → (Families A)
  unfolding is_listed
  unlisted weights [] = []
  unlisted weights ((family, pool) ∷ families) =
      let rest = unlisted weights families in
      if is_listed weights family then rest else (family, pool) ∷ rest

  unfoldable pub sample_each : ℕ → (Families A) → Option (List (FlowRecord A))
  unfolding sample
  sample_each per [] = some []
  sample_each per ((family, pool) ∷ families) = joined (sample per pool) (sample_each per families)

  abbrev with_unlisted :
      ℕ → (Families A) → Option (List (FlowRecord A)) → Option (List (FlowRecord A))
  unfolding sample_each
  with_unlisted total families none = none
  with_unlisted total families (some result) =
      joined (some result)
        (sample_each (per_family total (length result) (length families)) families)

  -- `result or records`, after the shuffle
  abbrev or_records :
      (List (FlowRecord A) → List (FlowRecord A))
      → List (FlowRecord A)
      → Option (List (FlowRecord A))
      → Option (List (FlowRecord A))
  or_records shuffle records none = none
  or_records shuffle records (some []) = some records
  or_records shuffle records (some (r ∷ result)) = some (shuffle (r ∷ result))

  unfoldable pub filter_by_weights :
      (upper : String → String)
      → (target_of : (total w : ℕ) → ℕ) → (shuffle : List (FlowRecord A) → List (FlowRecord A))
      → Weights
      → List (FlowRecord A)
      → Option (List (FlowRecord A))
  unfolding group sample_listed unlisted with_unlisted
  filter_by_weights upper target_of shuffle [] records = some records
  filter_by_weights upper target_of shuffle (w ∷ weights) records =
      let families = group upper records [] in
      or_records shuffle records (
        with_unlisted (length records) (unlisted (w ∷ weights) families)
          (sample_listed (target_of (length records)) (w ∷ weights) families))

  unfoldable pub filter_by_scenario :
      (upper : String → String)
      → (target_of : (total w : ℕ) → ℕ) → (shuffle : List (FlowRecord A) → List (FlowRecord A))
      → List (FlowRecord A)
      → String
      → Option (List (FlowRecord A))
  unfolding filter_by_weights weights_of
  filter_by_scenario upper target_of shuffle records scenario =
      filter_by_weights upper target_of shuffle (weights_of scenario) records

  -- put_nowait of the replay thread: a record is dropped if the queue is full.
  unfoldable pub enqueue : ℕ → FlowRecord A → List (FlowRecord A) → List (FlowRecord A)
  enqueue max_queue r queue = if ltb (length queue) max_queue then queue ++ r ∷ [] else queue

  -- read_alerts: all that is queued is taken, and what is newer and not benign is returned.
  unfoldable pub drain_records :
      (String → String) → (since_ts : ℕ) → List (FlowRecord A) → List (FlowRecord A)
  drain_records upper since_ts [] = []
  drain_records upper since_ts (r ∷ queue) =
      let rest = drain_records upper since_ts queue in
      if ltb since_ts r.timestamp && not (upper r.attack_family == "BENIGN") then r ∷ rest else rest
