-- ===== src/Assembler/Table/Bounds.antt =====
-- The size of a BoundedTable, under every operation.
use sih.Prelude.{
  ℕ, ◌≤◌, ◌<◌, String, ◌≡◌, refl, Option, none, some, List, [], ◌∷◌, arith, length, length-append,
  Option-cases, Bool-cases, true, ◌∙◌, ◌+◌, ◌-◌, inl, inr, leb, ap, drop, length-drop,
}
use sih.Prelude.Eq.{Eq}
use sih.Dict.{lookup, erase, Distinct}
use sih.Dict.Laws.{
  lookup-append, lookup-erase, Distinct-put, Distinct-erase, Distinct-append_new, length-erase,
  length-put_old, put_new,
}
use sih.Assembler.Table.{
  or_now, Entry, BoundedTable, init, evict_lru, make_room, move_to_end, refresh, create,
  get_or_create, get,
}

-- The bound needs room for one entry: with `max_size` 0 a created entry is one too many.
pub record IsValid {ℓ κ} {K : Type ℓ} {V : Type κ} ⦃e : Eq K⦄ (t : BoundedTable K V) : Type κ where
  pub positive : 0 < t.max_size
  pub bounded : length t.table ≤ t.max_size
  pub distinct : Distinct t.table

module _ {ℓ κ} {K : Type ℓ} {V : Type κ} where
  -- The eviction drops the first entry of the table, if there is one.
  pub table-evict_lru : (t : BoundedTable K V) → (evict_lru t).table ≡ drop 1 t.table
  unfolding evict_lru
  table-evict_lru t = ground arith

  evict_lru_keeps :
      (t : BoundedTable K V)
      → ((evict_lru t).max_size ≡ t.max_size) × ((evict_lru t).ttl_seconds ≡ t.ttl_seconds)
  unfolding evict_lru
  evict_lru_keeps t = ground arith

module _ {ℓ κ} {K : Type ℓ} {V : Type κ} ⦃e : Eq K⦄ where
  Distinct-drop : (d : List (K × Entry V)) → Distinct d → Distinct (drop 1 d)
  Distinct-drop [] h = tt
  Distinct-drop (x ∷ d) h = h.1

  lookup-drop-none :
      (k : K) (d : List (K × Entry V)) → lookup k d ≡ none → lookup k (drop 1 d) ≡ none
  unfolding lookup
  lookup-drop-none k [] h = refl
  lookup-drop-none k (x ∷ d) h = ground arith

  move_to_end-Distinct :
      (k : K) (v : Entry V) (d : List (K × Entry V)) → Distinct d → Distinct (move_to_end k v d)
  unfolding move_to_end
  move_to_end-Distinct k v d h =
      Distinct-append_new k v (erase k d) (Distinct-erase k d h)
        (ground (arith, lookup-erase k k d h, e.beq_iff k k))

  length-move_to_end :
      (k : K) (v : Entry V) (d : List (K × Entry V))
      → lookup k d ≡ some v
      → length (move_to_end k v d) ≡ length d
  unfolding move_to_end
  length-move_to_end k v d h =
      omega (arith, length-append (erase k d) ((k, v) ∷ []), length-erase k d h)

  pub lookup-move_to_end_self :
      (k : K) (v : Entry V) (d : List (K × Entry V))
      → Distinct d
      → lookup k (move_to_end k v d) ≡ some v
  unfolding move_to_end lookup
  lookup-move_to_end_self k v d h =
      ground (arith, lookup-append k (erase k d) ((k, v) ∷ []), lookup-erase k k d h, e.beq_iff k k)

  pub length-refresh :
      (k : K) (old : Entry V) (time : ℕ) (t : BoundedTable K V)
      → lookup k t.table ≡ some old
      → IsValid t
      → length (refresh k old time t).1.table ≡ length t.table
  unfolding refresh
  length-refresh k old time t there h = omega (
    arith,
    length-put_old k (record old { last_seen = time }) (move_to_end k old t.table)
        (lookup-move_to_end_self k old t.table h.distinct),
    length-move_to_end k old t.table there,
  )

  pub max_size-refresh :
      (k : K) (old : Entry V) (time : ℕ) (t : BoundedTable K V)
      → (refresh k old time t).1.max_size ≡ t.max_size
  unfolding refresh
  max_size-refresh k old time t = refl

  pub refresh-IsValid :
      (k : K) (old : Entry V) (time : ℕ) (t : BoundedTable K V)
      → lookup k t.table ≡ some old
      → IsValid t
      → IsValid (refresh k old time t).1
  unfolding refresh
  refresh-IsValid k old time t there h = record {
    positive = h.positive;
    bounded = omega (arith, length-refresh k old time t there h);
    distinct = Distinct-put k _ _ (move_to_end-Distinct k old t.table h.distinct);
  }

  -- One entry fewer than the bound, no key twice, and no new key.
  pub record HasRoom (k : K) (t : BoundedTable K V) (room : BoundedTable K V) : Type κ where
    pub same_max : room.max_size ≡ t.max_size
    pub same_ttl : room.ttl_seconds ≡ t.ttl_seconds
    pub below : length room.table < t.max_size
    pub distinct : Distinct room.table
    pub absent : lookup k room.table ≡ none

  pub make_room-HasRoom :
      (k : K) (t : BoundedTable K V)
      → lookup k t.table ≡ none
      → IsValid t
      → HasRoom k t (make_room t)
  unfolding make_room
  make_room-HasRoom k t absent h = elim (Bool-cases (leb t.max_size (length t.table))) [
    | inl full ↦
        rw (full, make_room)
          (record {
            same_max = (evict_lru_keeps t).0;
            same_ttl = (evict_lru_keeps t).1;
            below = omega (
              arith,
              h.bounded,
              h.positive,
              ap length (table-evict_lru t),
              length-drop 1 t.table,
            );
            distinct = rw table-evict_lru (Distinct-drop t.table h.distinct);
            absent = rw table-evict_lru (lookup-drop-none k t.table absent);
          })
    | inr below ↦
        rw (below, make_room)
          (record {
            same_max = refl;
            same_ttl = refl;
            below = ground arith;
            distinct = h.distinct;
            absent = absent;
          })
  ]

  pub length-make_room_full :
      (t : BoundedTable K V)
      → leb t.max_size (length t.table) ≡ true
      → length (make_room t).table ≡ length t.table - 1
  unfolding make_room
  length-make_room_full t full =
      rw (full, make_room) (omega (arith, ap length (table-evict_lru t), length-drop 1 t.table))

  pub max_size-create :
      (k : K) (made : V) (time : ℕ) (t : BoundedTable K V)
      → lookup k t.table ≡ none
      → IsValid t
      → (create k made time t).1.max_size ≡ t.max_size
  unfolding create
  max_size-create k made time t absent h = (make_room-HasRoom k t absent h).same_max

  pub length-create :
      (k : K) (made : V) (time : ℕ) (t : BoundedTable K V)
      → lookup k t.table ≡ none
      → IsValid t
      → length (create k made time t).1.table ≡ length (make_room t).table + 1
  unfolding create
  length-create k made time t absent h =
      ap length (put_new k _ (make_room t).table (make_room-HasRoom k t absent h).absent)
      ∙ length-append (make_room t).table _

  pub create-IsValid :
      (k : K) (made : V) (time : ℕ) (t : BoundedTable K V)
      → lookup k t.table ≡ none
      → IsValid t
      → IsValid (create k made time t).1
  unfolding create
  create-IsValid k made time t absent h =
      let room = make_room-HasRoom k t absent h in
      record {
        positive = omega (arith, room.same_max);
        bounded = omega (arith, room.same_max, room.below, length-create k made time t absent h);
        distinct = Distinct-put k _ _ room.distinct;
      }

  -- get_or_create never leaves more entries than `max_size`, nor a key twice.
  pub get_or_create-IsValid :
      (k : K) (made : V) (current_time : Option ℕ) (now : ℕ) (t : BoundedTable K V)
      → IsValid t
      → IsValid (get_or_create k made current_time now t).1
  unfolding get_or_create
  get_or_create-IsValid k made current_time now t h = elim (Option-cases (lookup k t.table)) [
    | inl absent ↦ rw (absent, get_or_create) (create-IsValid k made _ t absent h)
    | inr (old, there) ↦ rw (there, get_or_create) (refresh-IsValid k old _ t there h)
  ]

  pub max_size-get_or_create :
      (k : K) (made : V) (current_time : Option ℕ) (now : ℕ) (t : BoundedTable K V)
      → IsValid t
      → (get_or_create k made current_time now t).1.max_size ≡ t.max_size
  unfolding get_or_create
  max_size-get_or_create k made current_time now t h = elim (Option-cases (lookup k t.table)) [
    | inl absent ↦
        rw (absent, get_or_create) (max_size-create k made (or_now current_time now) t absent h)
    | inr (old, there) ↦
        rw (there, get_or_create) (max_size-refresh k old (or_now current_time now) t)
  ]

  get-IsValid : (k : K) (t : BoundedTable K V) → IsValid t → IsValid (get k t).1
  unfolding get
  get-IsValid k t h = elim (Option-cases (lookup k t.table)) [
    | inl absent ↦ rw (absent, get) h
    | inr (old, there) ↦
        rw (there, get)
          (record {
            positive = h.positive;
            bounded = omega (arith, length-move_to_end k old t.table there);
            distinct = move_to_end-Distinct k old t.table h.distinct;
          })
  ]

pub init-IsValid {ℓ κ} :
    {K : Type ℓ} {V : Type κ} ⦃e : Eq K⦄ (name : String) (max_size ttl : ℕ)
    → 0 < max_size
    → IsValid (init {K = K} {V = V} name max_size ttl)
unfolding init
init-IsValid name max_size ttl h = record { positive = h; bounded = omega arith; distinct = tt }
