-- ===== src/Dashboard/Cache.antt =====
-- SummaryCache of dashboard/api/server.py. What the store would answer is a parameter by the time.
use sih.Prelude.{
  arith, refl, of_branches, ◌∷◌, [], List, some, none, Option, ◌≡◌, ◌<◌, ◌≤◌, ◌+◌, ℕ, if◌then◌else◌,
  ltb,
}

pub record SummaryCache (D : Type 0) : Type 0 where
  pub ttl : ℕ
  pub last_time : ℕ
  pub cached_data : Option D

-- A request for the summary, or an invalidation.
pub data CacheCall : Type 0 where
  get_at : ℕ → CacheCall
  invalidated : CacheCall

module _ {D : Type 0} where
  abbrev pub new_cache : ℕ → SummaryCache D
  new_cache ttl = record { ttl = ttl; last_time = 0; cached_data = none }

  unfoldable pub get_cached : ℕ → D → Option D → SummaryCache D → D × SummaryCache D
  get_cached now fresh none c = (fresh, record c { cached_data = some fresh; last_time = now })
  get_cached now fresh (some cached) c =
      if ltb now (c.last_time + c.ttl)
      then (cached, c)
      else (fresh, record c { cached_data = some fresh; last_time = now })

  -- `fresh` is what the store's get_summary_stats returns, if it is asked.
  unfoldable pub get_summary_at : ℕ → D → SummaryCache D → D × SummaryCache D
  unfolding get_cached
  get_summary_at now fresh c = get_cached now fresh c.cached_data c

  abbrev pub invalidate : SummaryCache D → SummaryCache D
  invalidate c = record c { cached_data = none; last_time = 0 }

  module _ (stats : ℕ → D) where
    unfoldable pub call_all : List CacheCall → SummaryCache D → SummaryCache D
    unfolding get_summary_at
    call_all [] c = c
    call_all (get_at now ∷ calls) c = call_all calls (get_summary_at now (stats now) c).1
    call_all (invalidated ∷ calls) c = call_all calls (invalidate c)

    -- What is cached is what the store answered at the time that is kept with it.
    abbrev IsDatedAt : Option D → ℕ → Type 0
    IsDatedAt none time = Unit
    IsDatedAt (some d) time = d ≡ stats time

    abbrev IsDated : ℕ → SummaryCache D → Type 0
    IsDated ttl c = IsDatedAt c.cached_data c.last_time × (c.ttl ≡ ttl)

    IsDated-get_cached :
        (ttl now : ℕ) (cached : Option D) (c : SummaryCache D)
        → IsDated ttl c
        → IsDated ttl (get_cached now (stats now) cached c).1
    unfolding get_cached
    IsDated-get_cached ttl now none c h = (refl, h.1)
    IsDated-get_cached ttl now (some cached) c h =
        of_branches (λ (r : D × SummaryCache D). IsDated ttl r.1) (ltb now (c.last_time + c.ttl)) _
          _ (λ young. h) (λ old. (refl, h.1))

    IsDated-call_all :
        (ttl : ℕ) (calls : List CacheCall) (c : SummaryCache D)
        → IsDated ttl c
        → IsDated ttl (call_all calls c)
    unfolding call_all get_summary_at
    IsDated-call_all ttl [] c h = h
    IsDated-call_all ttl (get_at now ∷ calls) c h =
        IsDated-call_all ttl calls _ (IsDated-get_cached ttl now c.cached_data c h)
    IsDated-call_all ttl (invalidated ∷ calls) c h =
        IsDated-call_all ttl calls (invalidate c) (tt, h.1)

    -- What the store answered less than the time to live ago.
    abbrev IsRecent : ℕ → ℕ → D → Type 0
    IsRecent ttl now d = (time : ℕ) × (d ≡ stats time) × (now < time + ttl)

    IsRecent-get_cached :
        (ttl now : ℕ) (cached : Option D) (c : SummaryCache D)
        → 1 ≤ ttl
        → IsDatedAt cached c.last_time
        → c.ttl ≡ ttl
        → IsRecent ttl now (get_cached now (stats now) cached c).0
    unfolding get_cached
    IsRecent-get_cached ttl now none c h dated same = (now, refl, omega arith)
    IsRecent-get_cached ttl now (some cached) c h dated same =
        of_branches (λ (r : D × SummaryCache D). IsRecent ttl now r.0)
          (ltb now (c.last_time + c.ttl)) _ _
          (λ young. (c.last_time, dated, ground (arith, young, same)))
          (λ old. (now, refl, omega arith))

    -- With a time to live of at least one tick, and after any requests and invalidations: a request is
    -- answered with what the store answered, or answers, at a time less than the time to live ago; and
    -- an answer right after an invalidation is the store's own.
    pub get_summary_at-call_all :
        (ttl : ℕ) (calls : List CacheCall) (now : ℕ)
        → 1 ≤ ttl
        → IsRecent ttl now (get_summary_at now (stats now) (call_all calls (new_cache ttl))).0
          × ((get_summary_at now (stats now) (invalidate (call_all calls (new_cache ttl)))).0
              ≡ stats now)
    unfolding get_summary_at
    get_summary_at-call_all ttl calls now h =
        let c = call_all calls (new_cache ttl) in
        let dated = IsDated-call_all ttl calls (new_cache ttl) (tt, refl) in
        (IsRecent-get_cached ttl now c.cached_data c h dated.0 dated.1, unfold get_cached in refl)
