-- ===== src/Datasource/Replay/Samples.antt =====
-- The selection of records by a scenario ends, and selects only what was loaded.
use sih.Dict.{lookup, put}
use sih.Prelude.Eq.{◌==◌, string_eq}
use sih.Prelude.{
  some-injective, none, subst, sym, of_branches, arith, ◌++◌, ◌∷◌, [], List, some, Option, inr, inl,
  ◌∙◌, refl, ◌≡◌, String, ◌≤◌, ◌+◌, suc, zero, ℕ, All-append, All, length-take, length-append, take,
  length, Bool-cases, ltb,
}
use sih.Datasource.Replay.{
  weights_of, is_listed, filter_by_weights, per_family, Weights, or_records, with_unlisted,
  sample_pool, group, filter_by_scenario, sample_listed, sample_each, unlisted, Families, joined,
  pool_of, sample, extend_until,
}
use sih.Datasource.Records.{FlowRecord}

-- A loop that extends by a pool that is not empty reaches its target with that many rounds.
extend_until-reaches :
    {R : Type 0} (P : R → Type 0) (fuel target : ℕ) (r : R) (pool sampled : List R)
    → target ≤ length sampled + fuel
    → All P (r ∷ pool)
    → All P sampled
    → (xs : List R) × (extend_until fuel target (r ∷ pool) sampled ≡ some xs)
      × (target ≤ length xs)
      × All P xs
unfolding extend_until
extend_until-reaches P zero target r pool sampled enough h g =
    (sampled, ground (arith, enough), omega (arith, enough), g)
extend_until-reaches P (suc n) target r pool sampled enough h g =
    elim (Bool-cases (ltb (length sampled) target)) [
      | inl short ↦
          (let (xs, reached, long, held) =
              extend_until-reaches P n target r pool (sampled ++ r ∷ pool)
                (ground (arith, enough, length-append sampled (r ∷ pool))) h
                (All-append P sampled (r ∷ pool) g h) in
            (xs, rw short reached, long, held))
      | inr long ↦ (sampled, rw long refl, ground (arith, long), g)
    ]

All-take : {R : Type 0} (P : R → Type 0) (n : ℕ) (xs : List R) → All P xs → All P (take n xs)
All-take P zero xs h = tt
All-take P (suc n) [] h = tt
All-take P (suc n) (x ∷ xs) h = (h.0, All-take P n xs h.1)

-- A sample of a pool that is not empty has exactly as many elements as its target, all of the pool.
sample-IsSampled :
    {R : Type 0} (P : R → Type 0) (target : ℕ) (r : R) (pool : List R)
    → All P (r ∷ pool)
    → (xs : List R) × (sample target (r ∷ pool) ≡ some xs) × (length xs ≡ target) × All P xs
unfolding sample
sample-IsSampled P target r pool h =
    let (xs, reached, long, held) =
      extend_until-reaches P target target r pool [] (omega arith) h tt in
    (
      take target xs,
      rw reached refl,
      length-take target xs ∙ omega (arith, long),
      All-take P target xs held,
    )

module _ {A : Type 0} (P : FlowRecord A → Type 0) where
  -- A selection that succeeds with records of which P holds.
  abbrev pub IsSelected : Option (List (FlowRecord A)) → Type 0
  IsSelected o = (xs : List (FlowRecord A)) × (o ≡ some xs) × All P xs

  abbrev IsPool : String × List (FlowRecord A) → Type 0
  IsPool (family, []) = ⊥
  IsPool (family, r ∷ pool) = All P (r ∷ pool)

  joined-IsSelected :
      (a b : Option (List (FlowRecord A))) → IsSelected a → IsSelected b → IsSelected (joined a b)
  joined-IsSelected a b (xs, p, h) (ys, q, g) = (xs ++ ys, rw p (rw q refl), All-append P xs ys h g)

  pool_of-All :
      (family : String) (families : Families A)
      → All IsPool families
      → All P (pool_of family families)
  unfolding pool_of lookup
  pool_of-All family [] h = tt
  pool_of-All family ((key, []) ∷ families) h = elim h.0 [ ]
  pool_of-All family ((key, r ∷ pool) ∷ families) h =
      of_branches
        (λ (o : Option (List (FlowRecord A))). All P (elim o [ none ↦ [] | some found ↦ found ]))
        (key == family) _ _ (λ here. h.0) (λ further. pool_of-All family families h.1)

  IsPool-snoc :
      (family : String) (pool : List (FlowRecord A)) (r : FlowRecord A)
      → All P pool
      → P r
      → IsPool (family, pool ++ r ∷ [])
  IsPool-snoc family [] r h p = (p, tt)
  IsPool-snoc family (x ∷ pool) r h p = (h.0, All-append P pool (r ∷ []) h.1 (p, tt))

  IsPool-put :
      (family : String) (pool : List (FlowRecord A)) (families : Families A)
      → ((key : String) → IsPool (key, pool))
      → All IsPool families
      → All IsPool (put family pool families)
  unfolding put
  IsPool-put family pool [] p h = (p family, tt)
  IsPool-put family pool ((key, old) ∷ families) p h =
      of_branches (λ (d : Families A). All IsPool d) (key == family) _ _ (λ here. (p key, h.1))
        (λ further. (h.0, IsPool-put family pool families p h.1))

  IsPool-group :
      (upper : String → String) (records : List (FlowRecord A)) (families : Families A)
      → All P records
      → All IsPool families
      → All IsPool (group upper records families)
  unfolding group
  IsPool-group upper [] families h g = g
  IsPool-group upper (r ∷ records) families h g =
      let family = upper r.attack_family in
      let old = pool_of family families in
      IsPool-group upper records (put family (old ++ r ∷ []) families) h.1 (
        IsPool-put family (old ++ r ∷ []) families
          (λ key. IsPool-snoc key old r (pool_of-All family families g) h.0) g)

  IsPool-unlisted :
      (weights : Weights) (families : Families A)
      → All IsPool families
      → All IsPool (unlisted weights families)
  unfolding unlisted
  IsPool-unlisted weights [] h = tt
  IsPool-unlisted weights ((family, pool) ∷ families) h =
      of_branches (λ (d : Families A). All IsPool d) (is_listed weights family) _ _
        (λ listed. IsPool-unlisted weights families h.1)
        (λ new. (h.0, IsPool-unlisted weights families h.1))

  sample_pool-IsSelected :
      (target : ℕ) (pool : List (FlowRecord A)) → All P pool → IsSelected (sample_pool target pool)
  unfolding sample_pool
  sample_pool-IsSelected target [] h = ([], refl, tt)
  sample_pool-IsSelected target (r ∷ pool) h =
      let (xs, done, exact, held) = sample-IsSampled P target r pool h in (xs, done, held)

  sample_listed-IsSelected :
      (target_of : ℕ → ℕ) (weights : Weights) (families : Families A)
      → All IsPool families
      → IsSelected (sample_listed target_of weights families)
  unfolding sample_listed
  sample_listed-IsSelected target_of [] families h = ([], refl, tt)
  sample_listed-IsSelected target_of ((family, w) ∷ weights) families h =
      joined-IsSelected _ _
        (sample_pool-IsSelected (target_of w) (pool_of family families)
          (pool_of-All family families h))
        (sample_listed-IsSelected target_of weights families h)

  sample_each-IsSelected :
      (per : ℕ) (families : Families A)
      → All IsPool families
      → IsSelected (sample_each per families)
  unfolding sample_each
  sample_each-IsSelected per [] h = ([], refl, tt)
  sample_each-IsSelected per ((family, []) ∷ families) h = elim h.0 [ ]
  sample_each-IsSelected per ((family, r ∷ pool) ∷ families) h =
      let (xs, done, exact, held) = sample-IsSampled P per r pool h.0 in
      joined-IsSelected _ _ (xs, done, held) (sample_each-IsSelected per families h.1)

  with_unlisted-IsSelected :
      (total : ℕ) (families : Families A) (o : Option (List (FlowRecord A)))
      → All IsPool families
      → IsSelected o
      → IsSelected (with_unlisted total families o)
  unfolding with_unlisted
  with_unlisted-IsSelected total families none h selected = selected
  with_unlisted-IsSelected total families (some result) h (xs, found, held) =
      joined-IsSelected (some result) _ (xs, found, held)
        (sample_each-IsSelected (per_family total (length result) (length families)) families h)

  -- The selection ends: for records of which any property holds, whatever the scenario and whatever
  -- the targets of its weights, and with a shuffle that keeps such a property, the loops reach their
  -- targets, and the property holds of each record that is selected. So all of them were loaded.
  pub filter_by_scenario-IsSelected :
      (upper : String → String) (target_of : (total w : ℕ) → ℕ)
      (shuffle : List (FlowRecord A) → List (FlowRecord A)) (records : List (FlowRecord A))
      (scenario : String)
      → ((xs : List (FlowRecord A)) → All P xs → All P (shuffle xs))
      → All P records
      → IsSelected (filter_by_scenario upper target_of shuffle records scenario)
  unfolding filter_by_scenario
  filter_by_scenario-IsSelected upper target_of shuffle records scenario keeps h =
      by_weights (weights_of scenario)
    where
      finished :
          (o : Option (List (FlowRecord A)))
          → IsSelected o
          → IsSelected (or_records shuffle records o)
      finished none (xs, found, held) = (xs, found, held)
      finished (some []) selected = (records, refl, h)
      finished (some (r ∷ result)) (xs, found, held) = (
        shuffle (r ∷ result),
        refl,
        keeps (r ∷ result) (
            subst (λ (ys : List (FlowRecord A)). All P ys)
              (sym (some-injective (r ∷ result) xs found)) held),
      )

      by_weights :
          (weights : Weights)
          → IsSelected (filter_by_weights upper target_of shuffle weights records)
      by_weights [] = unfold filter_by_weights in (records, refl, h)
      by_weights (w ∷ weights) =
          unfold filter_by_weights in
          let pools = IsPool-group upper records [] h tt in
          finished _ (
            with_unlisted-IsSelected (length records)
              (unlisted (w ∷ weights) (group upper records [])) _
              (IsPool-unlisted (w ∷ weights) (group upper records []) pools)
              (sample_listed-IsSelected (target_of (length records)) (w ∷ weights)
                (group upper records []) pools))
