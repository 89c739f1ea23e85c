-- ===== src/Assembler/Table/Recency.antt =====
-- The order of eviction of get_or_create, against a history that forgets no key.
use sih.Prelude.{
  ℕ, ◌<◌, String, ◌≡◌, refl, ap, sym, true, false, Option, none, some, List, [], ◌∷◌, ◌++◌, arith,
  length, Option-cases, Bool-cases, inl, inr, leb, take, ◌⊎◌, ◌∙◌, is_some, if◌then◌else◌,
}
use sih.Prelude.Eq.{Eq}
use sih.Dict.{lookup}
use sih.Dict.Laws.{put_new}
use sih.Dict.Keys.{
  keys, occurs, erase_key, NoRepeat, occurs-left_false, occurs-keys, keys-erase, keys-append,
  keys-put_old,
}
use sih.Assembler.Table.{
  or_now, Entry, BoundedTable, init, make_room, move_to_end, refresh, create, get_or_create,
}
use sih.Assembler.Table.Bounds.{
  get_or_create-IsValid, IsValid, table-evict_lru, lookup-move_to_end_self, init-IsValid,
  make_room-HasRoom, refresh-IsValid, create-IsValid, length-refresh, max_size-refresh,
  length-create, max_size-create, length-make_room_full,
}
use sih.Assembler.Table.Uses.{
  touch-NoRepeat, regroup, touch_right, touch_left, leb_le, take-drop-keys, touch,
}

module _ {ℓ κ} {K : Type ℓ} {V : Type κ} ⦃e : Eq K⦄ where
  -- The keys of the table are the last of the history, and the table is full if any were left out.
  pub record Tracks (t : BoundedTable K V) (history : List K) : Type (ℓ ⊔ κ) where
    pub valid : IsValid t
    pub older : List K
    pub split : history ≡ older ++ keys t.table
    pub whole : (older ≡ []) ⊎ (length t.table ≡ t.max_size)
    pub unique : NoRepeat history

  keys-refresh :
      (k : K) (old : Entry V) (time : ℕ) (t : BoundedTable K V)
      → IsValid t
      → keys (refresh k old time t).1.table ≡ touch k (keys t.table)
  unfolding refresh touch move_to_end
  keys-refresh k old time t h =
      keys-put_old k _ (move_to_end k old t.table)
        (lookup-move_to_end_self k old t.table h.distinct)
      ∙ rw (keys-append, keys-erase)

  refresh-Tracks :
      (k : K) (old : Entry V) (time : ℕ) (t : BoundedTable K V) (history : List K)
      → lookup k t.table ≡ some old
      → Tracks t history
      → Tracks (refresh k old time t).1 (touch k history)
  refresh-Tracks k old time t history there h =
      let ks = keys t.table in
      let seen : occurs k ks ≡ true = occurs-keys k t.table ∙ ap is_some there in
      let fresh = occurs-left_false k h.older ks (rw h.split at h.unique) seen in
      record {
        valid = refresh-IsValid k old time t there h.valid;
        older = h.older;
        split =
            ap (touch k) h.split
            ∙ touch_right k h.older ks fresh
            ∙ ap (◌++◌ h.older) (sym (keys-refresh k old time t h.valid));
        whole =
            ground
              (arith, length-refresh k old time t there h.valid, max_size-refresh k old time t);
        unique = touch-NoRepeat k history h.unique;
      }

  -- What is left out after a creation: the first key too, if the table was full.
  abbrev left_out : K → BoundedTable K V → List K → List K
  left_out k t older =
      erase_key k older ++ (if leb t.max_size (length t.table) then take 1 (keys t.table) else [])

  keys-make_room :
      (t : BoundedTable K V)
      → keys t.table
        ≡ (if leb t.max_size (length t.table) then take 1 (keys t.table) else [])
          ++ keys (make_room t).table
  unfolding make_room
  keys-make_room t = elim (Bool-cases (leb t.max_size (length t.table))) [
    | inl full ↦ rw (full, make_room, table-evict_lru) (sym (take-drop-keys t.table))
    | inr below ↦ rw (below, make_room)
  ]

  keys-create :
      (k : K) (made : V) (time : ℕ) (t : BoundedTable K V)
      → lookup k t.table ≡ none
      → IsValid t
      → keys (create k made time t).1.table ≡ keys (make_room t).table ++ k ∷ []
  unfolding create
  keys-create k made time t absent h =
      ap keys (put_new k _ (make_room t).table (make_room-HasRoom k t absent h).absent)
      ∙ keys-append (make_room t).table _

  create_whole :
      (k : K) (made : V) (time : ℕ) (t : BoundedTable K V) (older : List K)
      → lookup k t.table ≡ none
      → IsValid t
      → (older ≡ []) ⊎ (length t.table ≡ t.max_size)
      → (left_out k t older ≡ [])
        ⊎ (length (create k made time t).1.table ≡ (create k made time t).1.max_size)
  unfolding erase_key
  create_whole k made time t older absent h w =
      elim (Bool-cases (leb t.max_size (length t.table))) [
        | inl full ↦ inr (
            omega (
              arith,
              length-create k made time t absent h,
              max_size-create k made time t absent h,
              length-make_room_full t full,
              h.bounded,
              leb_le t.max_size (length t.table) full,
              h.positive,
            ))
        | inr below ↦ elim w [ inl e ↦ inl (rw (below, e)) | inr e ↦ absurd (ground arith) ]
      ]

  create-Tracks :
      (k : K) (made : V) (time : ℕ) (t : BoundedTable K V) (history : List K)
      → lookup k t.table ≡ none
      → Tracks t history
      → Tracks (create k made time t).1 (touch k history)
  create-Tracks k made time t history absent h =
      let ks = keys t.table in
      let unseen : occurs k ks ≡ false = occurs-keys k t.table ∙ ap is_some absent in
      record {
        valid = create-IsValid k made time t absent h.valid;
        older = left_out k t h.older;
        split =
            ap (touch k) h.split
            ∙ touch_left k h.older ks unseen
            ∙ regroup k (erase_key k h.older) _ _ (keys-make_room t)
            ∙ ap (◌++◌ (left_out k t h.older)) (sym (keys-create k made time t absent h.valid));
        whole = create_whole k made time t h.older absent h.valid h.whole;
        unique = touch-NoRepeat k history h.unique;
      }

  -- One call of get_or_create keeps the relation, if the history notes the use of the key.
  get_or_create-Tracks :
      (k : K) (made : V) (current_time : Option ℕ) (now : ℕ) (t : BoundedTable K V)
      (history : List K)
      → Tracks t history
      → Tracks (get_or_create k made current_time now t).1 (touch k history)
  unfolding get_or_create
  get_or_create-Tracks k made current_time now t history h =
      elim (Option-cases (lookup k t.table)) [
        | inl absent ↦ rw (absent, get_or_create) (create-Tracks k made _ t history absent h)
        | inr (old, there) ↦ rw (there, get_or_create) (refresh-Tracks k old _ t history there h)
      ]

init-Tracks {ℓ κ} :
    {K : Type ℓ} {V : Type κ} ⦃e : Eq K⦄ (name : String) (max_size ttl : ℕ)
    → 0 < max_size
    → Tracks (init {K = K} {V = V} name max_size ttl) []
unfolding init
init-Tracks name max_size ttl h = record {
  valid = init-IsValid name max_size ttl h;
  older = [];
  split = refl;
  whole = inl refl;
  unique = tt;
}

-- A call of get_or_create: the key, what its factory makes, and the time of the call.
pub record Access {ℓ κ} (K : Type ℓ) (V : Type κ) : Type (ℓ ⊔ κ) where
  pub key : K
  pub made : V
  pub time : ℕ

module _ {ℓ κ} {K : Type ℓ} {V : Type κ} ⦃e : Eq K⦄ where
  unfoldable pub run : List (Access K V) → BoundedTable K V → BoundedTable K V
  run [] t = t
  run (a ∷ rest) t = run rest (get_or_create a.key a.made (some a.time) a.time t).1

  unfoldable pub note : List (Access K V) → List K → List K
  note [] history = history
  note (a ∷ rest) history = note rest (touch a.key history)

  run-Tracks :
      (calls : List (Access K V)) (t : BoundedTable K V) (history : List K)
      → Tracks t history
      → Tracks (run calls t) (note calls history)
  unfolding run note
  run-Tracks [] t history h = h
  run-Tracks (a ∷ rest) t history h =
      run-Tracks rest _ _ (get_or_create-Tracks a.key a.made (some a.time) a.time t history h)

  max_size-get_or_create :
      (k : K) (made : V) (current_time : Option ℕ) (now : ℕ) (t : BoundedTable K V)
      → IsValid t
      → (get_or_create k made current_time now t).1.max_size ≡ t.max_size
  unfolding get_or_create
  max_size-get_or_create k made current_time now t h = elim (Option-cases (lookup k t.table)) [
    | inl absent ↦
        rw (absent, get_or_create) (max_size-create k made (or_now current_time now) t absent h)
    | inr (old, there) ↦
        rw (there, get_or_create) (max_size-refresh k old (or_now current_time now) t)
  ]

  max_size-run :
      (calls : List (Access K V)) (t : BoundedTable K V)
      → IsValid t
      → (run calls t).max_size ≡ t.max_size
  unfolding run
  max_size-run [] t h = refl
  max_size-run (a ∷ rest) t h =
      max_size-run rest _ (get_or_create-IsValid a.key a.made (some a.time) a.time t h)
      ∙ max_size-get_or_create a.key a.made (some a.time) a.time t h

  -- After any calls of get_or_create on a new table with room for an entry, `max_size` is as given,
  -- and the keys of the table, the oldest first, are the end of the list of all keys ever asked
  -- for, without repetition and in the order of their last use; a key is left out of the table only
  -- while it holds `max_size` entries; and the table never holds more.
  pub run-IsLastUsed :
      (name : String) (max_size ttl : ℕ) (calls : List (Access K V))
      → 0 < max_size
      → Tracks (run calls (init name max_size ttl)) (note calls [])
        × ((run calls (init name max_size ttl)).max_size ≡ max_size)
  unfolding init
  run-IsLastUsed name max_size ttl calls h = (
    run-Tracks calls (init name max_size ttl) [] (init-Tracks name max_size ttl h),
    max_size-run calls (init name max_size ttl) (init-IsValid name max_size ttl h),
  )
