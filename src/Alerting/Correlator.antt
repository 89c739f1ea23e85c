-- ===== src/Alerting/Correlator.antt =====
-- AlertCorrelator of alerting/correlator.py: alerts that share an address within a time window.
pub mod Window
pub mod Links
pub mod Memory
pub mod History
use sih.Alerting.Schema.{AlertRecord, FlowId}
use sih.Dict.{lookup, erase, put}
use sih.Prelude.{
  ◌++◌, ◌∷◌, [], List, some, none, Bool, String, ◌-◌, ◌+◌, ℕ, drop, length, if◌then◌else◌, ltb,
}
use sih.Prelude.Eq.{◌==◌, string_eq}

-- (timestamp, alert_id, src_ip, dst_ip) of `recent_alerts`
pub record Recent : Type 0 where
  pub time : ℕ
  pub alert_id : String
  pub src : String
  pub dst : String

-- (timestamp, alert_id) of a deque of `ip_to_alerts`
abbrev pub Posting : Type 0
Posting = ℕ × String

abbrev pub Index : Type 0
Index = List (String × List Posting)

pub record AlertCorrelator : Type 0 where
  pub time_window_seconds : ℕ
  pub ip_to_alerts : Index
  pub recent_alerts : List Recent

abbrev pub new_correlator : ℕ → AlertCorrelator
new_correlator window = record {
  time_window_seconds = window;
  ip_to_alerts = [];
  recent_alerts = [];
}

-- `time < cutoff` with `cutoff = current_time - time_window_seconds`, without the difference
abbrev pub is_old : ℕ → ℕ → ℕ → Bool
is_old window now time = ltb (time + window) now

-- The inner `while`: the deque without its entries before the cutoff, up to the first that is not.
unfoldable pub drop_old : ℕ → ℕ → List Posting → List Posting
drop_old window now [] = []
drop_old window now ((time, id) ∷ rest) =
    let later = drop_old window now rest in
    if is_old window now time then later else (time, id) ∷ rest

-- What is left of a deque stays under its address; an address with an empty deque is deleted.
unfoldable pub shrink : String → List Posting → Index → Index
shrink ip [] index = erase ip index
shrink ip (p ∷ kept) index = put ip (p ∷ kept) index

-- One of the two `if old_src and old_src in self.ip_to_alerts` blocks; an empty text is false.
unfoldable pub expire_address : ℕ → ℕ → String → Index → Index
unfolding drop_old shrink
expire_address window now ip index = if ip == "" then index else (elim (lookup ip index) [
  | none ↦ index
  | some postings ↦ shrink ip (drop_old window now postings) index
])

-- The outer `while`.
unfoldable pub evict_old : ℕ → ℕ → List Recent → Index → List Recent × Index
unfolding expire_address
evict_old window now [] index = ([], index)
evict_old window now (r ∷ rest) index =
    let later =
      evict_old window now rest
        (expire_address window now r.dst (expire_address window now r.src index)) in
    if is_old window now r.time then later else (r ∷ rest, index)

-- The ids of a deque with `ts >= cutoff`
unfoldable pub fresh_ids : ℕ → ℕ → List Posting → List String
fresh_ids window now [] = []
fresh_ids window now ((time, id) ∷ rest) =
    let later = fresh_ids window now rest in if is_old window now time then later else id ∷ later

-- `self.ip_to_alerts[ip]`; a missing key of a defaultdict reads as an empty deque
unfoldable pub postings_at : String → Index → List Posting
unfolding lookup
postings_at ip index = elim (lookup ip index) [ none ↦ [] | some postings ↦ postings ]

-- One of the two `if new_src and new_src in self.ip_to_alerts` blocks
unfoldable pub ids_at : ℕ → ℕ → String → Index → List String
unfolding fresh_ids postings_at
ids_at window now ip index = if ip == "" then [] else fresh_ids window now (postings_at ip index)

-- What `related_ids.add` is called with, in order
unfoldable pub collected : ℕ → ℕ → String → String → Index → List String
unfolding ids_at
collected window now src dst index = ids_at window now src index ++ ids_at window now dst index

-- `list(related_ids)[-20:]`, with the order in which the set lists its elements as a parameter
unfoldable pub cap_related : List String → List String
cap_related ids = if ltb 20 (length ids) then drop (length ids - 20) ids else ids

-- `if ip: self.ip_to_alerts[ip].append((current_time, aid))`
unfoldable pub post : ℕ → String → String → Index → Index
unfolding postings_at
post now id ip index =
    if ip == "" then index else put ip (postings_at ip index ++ (now, id) ∷ []) index

-- The state after an alert.
unfoldable pub remember : ℕ → String → String → String → List Recent × Index → List Recent × Index
unfolding post
remember now id src dst (recent, index) = (
  recent ++ record { time = now; alert_id = id; src = src; dst = dst } ∷ [],
  post now id dst (post now id src index),
)

-- `set_order` lists the elements of the set that the given ids make.
unfoldable pub process :
    {S X : Type 0}
    → (List String → List String)
    → AlertRecord S X
    → AlertCorrelator
    → AlertRecord S X × AlertCorrelator
unfolding evict_old collected cap_related remember
process set_order alert c =
    let window = c.time_window_seconds in
    let now = alert.timestamp in
    let src = alert.flow_id.src_ip in
    let dst = alert.flow_id.dst_ip in
    let kept = evict_old window now c.recent_alerts c.ip_to_alerts in
    let related = cap_related (set_order (collected window now src dst kept.1)) in
    let stored = remember now alert.alert_id src dst kept in
    (
      record alert { related_alert_ids = alert.related_alert_ids ++ related },
      record c { recent_alerts = stored.0; ip_to_alerts = stored.1 },
    )
