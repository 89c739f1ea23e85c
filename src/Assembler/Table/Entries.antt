-- ===== src/Assembler/Table/Entries.antt =====
-- What get_or_create returns, what it stores and what it leaves alone.
use sih.Prelude.{
  true, ℕ, ◌+◌, ◌≤◌, ◌≡◌, refl, Bool, false, Option, none, some, List, [], ◌∷◌, arith, length,
  if◌then◌else◌, is_some, Bool-cases, Option-cases, inl, inr, leb, drop,
}
use sih.Prelude.Eq.{Eq}
use sih.Dict.{lookup, erase, Distinct}
use sih.Dict.Laws.{lookup-append, lookup-put, lookup-erase}
use sih.Assembler.Table.{
  Entry, BoundedTable, make_room, move_to_end, refresh, create, get_or_create, or_now,
}
use sih.Assembler.Table.Bounds.{IsValid, table-evict_lru, length-refresh, length-create}

module _ {ℓ κ} {K : Type ℓ} {V : Type κ} ⦃e : Eq K⦄ where
  -- Is `j` the key of the first entry?
  unfoldable pub is_oldest : K → List (K × Entry V) → Bool
  is_oldest j [] = false
  is_oldest j ((k, v) ∷ d) = e.beq k j

  -- Does asking for `k` evict `j`: is `k` new, the table full, and `j` its oldest key?
  unfoldable pub evicts : K → K → BoundedTable K V → Bool
  unfolding is_oldest
  evicts k j t = elim (lookup k t.table) [
    | some _ ↦ false
    | none ↦ if leb t.max_size (length t.table) then is_oldest j t.table else false
  ]

  lookup-move_to_end :
      (k j : K) (v : Entry V) (d : List (K × Entry V))
      → Distinct d
      → lookup j (move_to_end k v d) ≡ (if e.beq k j then some v else lookup j d)
  unfolding move_to_end lookup
  lookup-move_to_end k j v d h =
      ground (arith, lookup-append j (erase k d) ((k, v) ∷ []), lookup-erase k j d h)

  lookup-drop :
      (j : K) (d : List (K × Entry V))
      → Distinct d
      → lookup j (drop 1 d) ≡ (if is_oldest j d then none else lookup j d)
  unfolding lookup is_oldest
  lookup-drop j [] h = refl
  lookup-drop j ((k, v) ∷ d) h = ground (arith, e.beq_iff k j)

  lookup-make_room :
      (j : K) (t : BoundedTable K V)
      → IsValid t
      → lookup j (make_room t).table ≡ (
          if (if leb t.max_size (length t.table) then is_oldest j t.table else false)
          then none
          else lookup j t.table)
  unfolding make_room
  lookup-make_room j t h = elim (Bool-cases (leb t.max_size (length t.table))) [
    | inl full ↦ rw (full, make_room, table-evict_lru) (lookup-drop j t.table h.distinct)
    | inr below ↦ rw (below, make_room)
  ]

  lookup-create :
      (k j : K) (made : V) (time : ℕ) (t : BoundedTable K V)
      → IsValid t
      → lookup j (create k made time t).1.table ≡ (
          if e.beq k j
          then some (create k made time t).0
          else if (if leb t.max_size (length t.table) then is_oldest j t.table else false)
          then none
          else lookup j t.table)
  unfolding create
  lookup-create k j made time t h = rw lookup-put (rw (lookup-make_room j t h) refl)

  lookup-refresh :
      (k j : K) (old : Entry V) (time : ℕ) (t : BoundedTable K V)
      → IsValid t
      → lookup j (refresh k old time t).1.table
        ≡ (if e.beq k j then some (refresh k old time t).0 else lookup j t.table)
  unfolding refresh
  lookup-refresh k j old time t h = ground (
    arith,
    lookup-put k j (record old { last_seen = time }) (move_to_end k old t.table),
    lookup-move_to_end k j old t.table h.distinct,
  )

  evicted-refresh :
      (k : K) (old : Entry V) (time : ℕ) (t : BoundedTable K V)
      → (refresh k old time t).1.evicted_count ≡ t.evicted_count
  unfolding refresh
  evicted-refresh k old time t = refl

  refresh_count :
      (k : K) (old : Entry V) (time : ℕ) (t : BoundedTable K V)
      → lookup k t.table ≡ some old
      → IsValid t
      → length (refresh k old time t).1.table + (refresh k old time t).1.evicted_count
        ≡ length t.table + t.evicted_count + 0
  refresh_count k old time t there h =
      omega (arith, length-refresh k old time t there h, evicted-refresh k old time t)

  make_room_count :
      (t : BoundedTable K V)
      → IsValid t
      → length (make_room t).table + (make_room t).evicted_count ≡ length t.table + t.evicted_count
  unfolding make_room
  make_room_count t h = ground arith

  evicted-create :
      (k : K) (made : V) (time : ℕ) (t : BoundedTable K V)
      → (create k made time t).1.evicted_count ≡ (make_room t).evicted_count
  unfolding create
  evicted-create k made time t = refl

  create_count :
      (k : K) (made : V) (time : ℕ) (t : BoundedTable K V)
      → lookup k t.table ≡ none
      → IsValid t
      → length (create k made time t).1.table + (create k made time t).1.evicted_count
        ≡ length t.table + t.evicted_count + 1
  create_count k made time t absent h = omega (
    arith,
    length-create k made time t absent h,
    make_room_count t h,
    evicted-create k made time t,
  )

  -- After get_or_create the table holds the returned entry under the key, has lost the evicted key
  -- and answers every other key as before.
  pub lookup-get_or_create :
      (k j : K) (made : V) (current_time : Option ℕ) (now : ℕ) (t : BoundedTable K V)
      → IsValid t
      → lookup j (get_or_create k made current_time now t).1.table ≡ (
          if e.beq k j
          then some (get_or_create k made current_time now t).0
          else if evicts k j t
          then none
          else lookup j t.table)
  unfolding get_or_create evicts
  lookup-get_or_create k j made current_time now t h = elim (Option-cases (lookup k t.table)) [
    | inl absent ↦
        rw (absent, get_or_create, evicts) (lookup-create k j made (or_now current_time now) t h)
    | inr (old, there) ↦
        rw (there, get_or_create, evicts) (lookup-refresh k j old (or_now current_time now) t h)
  ]

  -- The entry that get_or_create returns was last seen at the time of the call; a new one was first
  -- seen then and has the fields of the factory, an old one keeps when it was first seen and its
  -- fields.
  pub get_or_create_entry :
      (k : K) (made : V) (current_time : Option ℕ) (now : ℕ) (t : BoundedTable K V)
      → (get_or_create k made current_time now t).0 ≡ (elim (lookup k t.table) [
        | none ↦ record {
          fields = made;
          first_seen = or_now current_time now;
          last_seen = or_now current_time now;
        }
        | some old ↦ record old { last_seen = or_now current_time now }
      ])
  unfolding get_or_create
  get_or_create_entry k made current_time now t = elim (Option-cases (lookup k t.table)) [
    | inl absent ↦ rw (absent, get_or_create)
    | inr (old, there) ↦ rw (there, get_or_create)
  ]

  -- One entry more or one eviction more for a new key, and neither for a key that is there.
  get_or_create_count :
      (k : K) (made : V) (current_time : Option ℕ) (now : ℕ) (t : BoundedTable K V)
      → IsValid t
      → length (get_or_create k made current_time now t).1.table
          + (get_or_create k made current_time now t).1.evicted_count
        ≡ length t.table + t.evicted_count + (if is_some (lookup k t.table) then 0 else 1)
  unfolding get_or_create
  get_or_create_count k made current_time now t h = elim (Option-cases (lookup k t.table)) [
    | inl absent ↦
        rw (absent, get_or_create) (create_count k made (or_now current_time now) t absent h)
    | inr (old, there) ↦
        rw (there, get_or_create) (refresh_count k old (or_now current_time now) t there h)
  ]

  evicted-make_room :
      (j : K) (t : BoundedTable K V)
      → leb t.max_size (length t.table) ≡ true
      → is_oldest j t.table ≡ true
      → (make_room t).evicted_count ≡ t.evicted_count + 1
  unfolding make_room is_oldest
  evicted-make_room j t full oldest = ground arith

  evicted-make_room-le : (t : BoundedTable K V) → t.evicted_count ≤ (make_room t).evicted_count
  unfolding make_room
  evicted-make_room-le t = ground arith

  -- The counter of evictions never falls, and rises where an entry is evicted.
  pub get_or_create_evicted :
      (k j : K) (made : V) (current_time : Option ℕ) (now : ℕ) (t : BoundedTable K V)
      → (t.evicted_count ≤ (get_or_create k made current_time now t).1.evicted_count)
        × (evicts k j t ≡ true
            → (get_or_create k made current_time now t).1.evicted_count ≡ t.evicted_count + 1)
  unfolding get_or_create evicts
  get_or_create_evicted k j made current_time now t = elim (Option-cases (lookup k t.table)) [
    | inl absent ↦
        let made_count = evicted-create k made (or_now current_time now) t in
        rw (absent, get_or_create, evicts)
          (
            omega (arith, made_count, evicted-make_room-le t),
            λ h. ground (arith, made_count, evicted-make_room j t),
          )
    | inr (old, there) ↦
        rw (there, get_or_create, evicts)
          (omega (arith, evicted-refresh k old (or_now current_time now) t), λ h. cc)
  ]
