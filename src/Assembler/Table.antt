-- ===== src/Assembler/Table.antt =====
-- BoundedTable of assembler/flow_session_tables.py: an LRU table with a time to live. The table is
-- an OrderedDict, here a list of entries, the oldest first.
pub mod Bounds
pub mod Expiry
pub mod Entries
pub mod Uses
pub mod Recency
use sih.Prelude.{
  ℕ, ◌+◌, String, Option, none, some, Bool, List, [], ◌∷◌, ◌++◌, if◌then◌else◌, length, ltb, leb,
}
use sih.Prelude.Eq.{Eq}
use sih.Dict.{lookup, erase, put}

-- What `default_factory` returns, with the two times that `get_or_create` writes into it.
pub record Entry {ℓ} (V : Type ℓ) : Type ℓ where
  pub fields : V
  pub first_seen : ℕ
  pub last_seen : ℕ

pub record BoundedTable {ℓ κ} (K : Type ℓ) (V : Type κ) : Type (ℓ ⊔ κ) where
  pub name : String
  pub max_size : ℕ
  pub ttl_seconds : ℕ
  pub table : List (K × Entry V)
  pub evicted_count : ℕ

unfoldable pub init {ℓ κ} : {K : Type ℓ} {V : Type κ} → String → ℕ → ℕ → BoundedTable K V
init name max_size ttl_seconds = record {
  name = name;
  max_size = max_size;
  ttl_seconds = ttl_seconds;
  table = [];
  evicted_count = 0;
}

-- `if current_time is None: current_time = time.time()`
abbrev pub or_now : Option ℕ → ℕ → ℕ
or_now none now = now
or_now (some time) now = time

-- `current_time - last_seen > ttl`, without the difference
unfoldable pub is_expired {κ} : {V : Type κ} → ℕ → ℕ → Entry V → Bool
is_expired current_time ttl entry = ltb (entry.last_seen + ttl) current_time

module _ {ℓ κ} {K : Type ℓ} {V : Type κ} where
  -- `popitem(last=False)` where the table is not empty
  drop_oldest : List (K × Entry V) → BoundedTable K V → BoundedTable K V
  drop_oldest [] t = t
  drop_oldest (oldest ∷ rest) t = record t { table = rest; evicted_count = t.evicted_count + 1 }

  unfoldable pub evict_lru : BoundedTable K V → BoundedTable K V
  unfolding drop_oldest
  evict_lru t = drop_oldest t.table t

  -- `if len(self.table) >= self.max_size: self._evict_lru()`
  unfoldable pub make_room : BoundedTable K V → BoundedTable K V
  unfolding evict_lru
  make_room t = if leb t.max_size (length t.table) then evict_lru t else t

  -- the first loop of `_evict_expired`
  unfoldable pub keys_to_remove : ℕ → ℕ → List (K × Entry V) → List K
  keys_to_remove current_time ttl [] = []
  keys_to_remove current_time ttl ((k, entry) ∷ rest) =
      let later = keys_to_remove current_time ttl rest in
      if is_expired current_time ttl entry then k ∷ later else later

module _ {ℓ κ} {K : Type ℓ} {V : Type κ} ⦃e : Eq K⦄ where
  -- the second loop; `none` is the KeyError that `del` raises for a key that is not there
  unfoldable pub delete_all : List K → BoundedTable K V → Option (BoundedTable K V)
  delete_all [] t = some t
  delete_all (k ∷ ks) t = elim (lookup k t.table) [
    | none ↦ none
    | some _ ↦
        delete_all ks (record t { table = erase k t.table; evicted_count = t.evicted_count + 1 })
  ]

  unfoldable pub evict_expired : ℕ → BoundedTable K V → Option (BoundedTable K V)
  evict_expired current_time t = delete_all (keys_to_remove current_time t.ttl_seconds t.table) t

  -- `move_to_end` of a key that is there
  unfoldable pub move_to_end : K → Entry V → List (K × Entry V) → List (K × Entry V)
  move_to_end k entry d = erase k d ++ (k, entry) ∷ []

  -- the two ways through `get_or_create`: the key is there, or an entry is created
  unfoldable pub refresh : K → Entry V → ℕ → BoundedTable K V → Entry V × BoundedTable K V
  unfolding move_to_end
  refresh key old time t =
      let entry : Entry V = record old { last_seen = time } in
      (entry, record t { table = put key entry (move_to_end key old t.table) })

  unfoldable pub create : K → V → ℕ → BoundedTable K V → Entry V × BoundedTable K V
  create key made time t =
      let room = make_room t in
      let entry : Entry V = record { fields = made; first_seen = time; last_seen = time } in
      (entry, record room { table = put key entry room.table })

  -- `made` is what the factory returns, `now` is `time.time()`.
  unfoldable pub get_or_create :
      K → V → Option ℕ → ℕ → BoundedTable K V → Entry V × BoundedTable K V
  unfolding refresh create make_room
  get_or_create key made current_time now t =
      let time = or_now current_time now in
      elim (lookup key t.table) [
        | some old ↦ refresh key old time t
        | none ↦ create key made time t
      ]

  unfoldable pub get : K → BoundedTable K V → Option (Entry V) × BoundedTable K V
  get key t = elim (lookup key t.table) [
    | some entry ↦ (some entry, record t { table = move_to_end key entry t.table })
    | none ↦ (none, t)
  ]
