-- ===== src/Alerting/Correlator/Memory.antt =====
-- What the correlator remembers of a list of alerts whose timestamps do not fall: the alerts of the
-- window, and the index of them by address.
use sih.Prelude.{
  arith, append_assoc, append-nil, ◌++◌, ◌∷◌, [], List, true, inr, inl, ◌∙◌, ap, sym, refl, ◌≡◌,
  String, ◌≤◌, ℕ, All-append, All, Bool-cases, if◌then◌else◌,
}
use sih.Alerting.Correlator.Window.{evict_old-Evicted, Ascending, named, postings_of}
use sih.Alerting.Correlator.{
  ◌==◌, Posting, Index, new_correlator, is_old, evict_old, postings_at, AlertCorrelator, Recent,
  post,
}
use sih.Dict.{Distinct}
use sih.Dict.Laws.{lookup-put, Distinct-put}
use sih.Prelude.Eq.{string_eq}

pub record Remembers (c : AlertCorrelator) (history : List Recent) (last : ℕ) : Type 0 where
  pub older : List Recent
  pub split : history ≡ older ++ c.recent_alerts
  pub stale : All (λ r. is_old c.time_window_seconds last r.time ≡ true) older
  pub ascending : Ascending 0 c.recent_alerts
  pub latest : All (λ r. r.time ≤ last) c.recent_alerts
  pub distinct : Distinct c.ip_to_alerts
  pub index : (ip : String) → postings_at ip c.ip_to_alerts ≡ postings_of ip c.recent_alerts

All-stale :
    (window last now : ℕ) (l : List Recent)
    → last ≤ now
    → All (λ r. is_old window last r.time ≡ true) l
    → All (λ r. is_old window now r.time ≡ true) l
All-stale window last now [] h s = tt
All-stale window last now (r ∷ l) h s = (ground arith, All-stale window last now l h s.1)

All-latest :
    (last now : ℕ) (l : List Recent)
    → last ≤ now
    → All (λ r. r.time ≤ last) l
    → All (λ r. r.time ≤ now) l
All-latest last now [] h s = tt
All-latest last now (r ∷ l) h s = (omega arith, All-latest last now l h s.1)

All-right {ℓ} : {A : Type ℓ} (P : A → Type 0) (a b : List A) → All P (a ++ b) → All P b
All-right P [] b h = h
All-right P (x ∷ a) b h = All-right P a b h.1

Ascending-right : (bound : ℕ) (a b : List Recent) → Ascending bound (a ++ b) → Ascending 0 b
Ascending-right bound [] [] h = tt
Ascending-right bound [] (r ∷ b) h = (omega arith, h.1)
Ascending-right bound (r ∷ a) b h = Ascending-right r.time a b h.1

pub Ascending-append :
    (bound : ℕ) (l : List Recent) (r : Recent)
    → Ascending bound l
    → bound ≤ r.time
    → All (λ s. s.time ≤ r.time) l
    → Ascending bound (l ++ r ∷ [])
Ascending-append bound [] r h b m = (b, tt)
Ascending-append bound (s ∷ l) r h b m = (h.0, Ascending-append s.time l r h.1 m.0 m.1)

-- The eviction keeps what the state remembers, at the time of the new alert.
pub evicted-Remembers :
    (c : AlertCorrelator) (history : List Recent) (last now : ℕ)
    → Remembers c history last
    → last ≤ now
    → (let out = evict_old c.time_window_seconds now c.recent_alerts c.ip_to_alerts in
        Remembers (record c { recent_alerts = out.0; ip_to_alerts = out.1 }) history now)
evicted-Remembers c history last now h later =
    let window = c.time_window_seconds in
    let ev =
      evict_old-Evicted window now 0 c.recent_alerts c.ip_to_alerts h.ascending h.distinct
        (λ ip. inl (h.index ip)) in
    record {
      older = h.older ++ ev.dropped;
      split = h.split ∙ ap (◌++◌ h.older) ev.split ∙ sym (append_assoc h.older ev.dropped _);
      stale =
          All-append _ h.older ev.dropped (All-stale window last now h.older later h.stale)
            ev.stale;
      ascending = Ascending-right 0 ev.dropped _ (rw (← ev.split) h.ascending);
      latest =
          All-right _ ev.dropped _
            (rw (← ev.split) (All-latest last now c.recent_alerts later h.latest));
      distinct = ev.distinct;
      index = ev.index;
    }

postings-post :
    (now : ℕ) (id ip j : String) (index : Index)
    → postings_at j (post now id ip index)
      ≡ (if named j ip then postings_at j index ++ (now, id) ∷ [] else postings_at j index)
unfolding post postings_at named
postings-post now id ip j index = elim (Bool-cases (ip == "")) [
  | inl blank ↦ rw (blank, post, named)
  | inr address ↦
      rw (address, post, named)
        (ground (
          arith,
          string_eq.beq_iff ip j,
          lookup-put ip j (postings_at ip index ++ (now, id) ∷ []) index,
        ))
]

pub post-Distinct :
    (now : ℕ) (id ip : String) (index : Index) → Distinct index → Distinct (post now id ip index)
unfolding post
post-Distinct now id ip index h = elim (Bool-cases (ip == "")) [
  | inl blank ↦ rw (blank, post) h
  | inr address ↦ rw (address, post) (Distinct-put ip _ index h)
]

postings_of-append :
    (ip : String) (l : List Recent) (r : Recent)
    → postings_of ip (l ++ r ∷ []) ≡ postings_of ip l ++ postings_of ip (r ∷ [])
unfolding postings_of
postings_of-append ip [] r = ground arith
postings_of-append ip (s ∷ l) r = ground (arith, postings_of-append ip l r)

pub remembered_index :
    (ip : String) (index : Index) (l : List Recent) (r : Recent)
    → postings_at ip index ≡ postings_of ip l
    → postings_at ip (post r.time r.alert_id r.dst (post r.time r.alert_id r.src index))
      ≡ postings_of ip (l ++ r ∷ [])
unfolding postings_of
remembered_index ip index l r h =
    let p : List Posting = (r.time, r.alert_id) ∷ [] in
    ground (
      arith,
      postings-post r.time r.alert_id r.src ip index,
      postings-post r.time r.alert_id r.dst ip (post r.time r.alert_id r.src index),
      postings_of-append ip l r,
      append_assoc (postings_of ip l) p p,
      append-nil (postings_of ip l),
    )

pub new-Remembers : (window : ℕ) → Remembers (new_correlator window) [] 0
unfolding postings_at postings_of
new-Remembers window = record {
  older = [];
  split = refl;
  stale = tt;
  ascending = tt;
  latest = tt;
  distinct = tt;
  index = λ ip. refl;
}
