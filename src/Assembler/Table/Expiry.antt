-- ===== src/Assembler/Table/Expiry.antt =====
-- `_evict_expired` of BoundedTable: two loops, against the filter that they stand for.
use sih.Prelude.{
  ℕ, ◌+◌, ◌-◌, ◌≡◌, refl, none, some, List, [], ◌∷◌, ◌++◌, arith, length, append_assoc,
  if◌then◌else◌, Bool-cases, inl, inr,
}
use sih.Prelude.Eq.{Eq}
use sih.Dict.{lookup, erase, Distinct}
use sih.Dict.Laws.{lookup-append}
use sih.Assembler.Table.{Entry, BoundedTable, is_expired, keys_to_remove, delete_all, evict_expired}

module _ {ℓ κ} {K : Type ℓ} {V : Type κ} where
  -- What stays: the entries not older than the time to live, in their order.
  unfoldable pub unexpired : ℕ → ℕ → List (K × Entry V) → List (K × Entry V)
  unexpired time ttl [] = []
  unexpired time ttl ((k, v) ∷ d) =
      let rest = unexpired time ttl d in if is_expired time ttl v then rest else (k, v) ∷ rest

  length-unexpired :
      (time ttl : ℕ) (d : List (K × Entry V))
      → length (unexpired time ttl d) + length (keys_to_remove time ttl d) ≡ length d
  unfolding unexpired keys_to_remove
  length-unexpired time ttl [] = refl
  length-unexpired time ttl ((k, v) ∷ d) = ground (arith, length-unexpired time ttl d)

module _ {ℓ κ} {K : Type ℓ} {V : Type κ} ⦃e : Eq K⦄ where
  -- A key that is not in the first part is found, and erased, in the second.
  lookup_here :
      (k : K) (v : Entry V) (kept d : List (K × Entry V))
      → lookup k kept ≡ none
      → lookup k (kept ++ (k, v) ∷ d) ≡ some v
  unfolding lookup
  lookup_here k v [] d h = ground (arith, e.beq_iff k k)
  lookup_here k v (x ∷ kept) d h = ground (arith, lookup_here k v kept d)

  erase_here :
      (k : K) (v : Entry V) (kept d : List (K × Entry V))
      → lookup k kept ≡ none
      → erase k (kept ++ (k, v) ∷ d) ≡ kept ++ d
  unfolding lookup erase
  erase_here k v [] d h = ground (arith, e.beq_iff k k)
  erase_here k v (x ∷ kept) d h = ground (arith, erase_here k v kept d)

  Distinct-remove :
      (k : K) (v : Entry V) (kept d : List (K × Entry V))
      → Distinct (kept ++ (k, v) ∷ d)
      → (lookup k kept ≡ none) × Distinct (kept ++ d)
  unfolding lookup
  Distinct-remove k v [] d h = (refl, h.1)
  Distinct-remove k v ((j, w) ∷ kept) d h = ground (
    arith,
    e.beq_iff k j,
    e.beq_iff j k,
    lookup-append j kept ((k, v) ∷ d),
    lookup-append j kept d,
    Distinct-remove k v kept d h.1,
  )

  abbrev after : ℕ → BoundedTable K V → List (K × Entry V) → List (K × Entry V) → BoundedTable K V
  after time t kept d = record t {
    table = kept ++ unexpired time t.ttl_seconds d;
    evicted_count = t.evicted_count + length (keys_to_remove time t.ttl_seconds d);
  }

  delete_all_lem :
      (time : ℕ) (t : BoundedTable K V) (kept d : List (K × Entry V))
      → Distinct (kept ++ d)
      → delete_all (keys_to_remove time t.ttl_seconds d) (record t { table = kept ++ d })
        ≡ some (after time t kept d)
  unfolding delete_all keys_to_remove unexpired
  delete_all_lem time t kept [] h = ground arith
  delete_all_lem time t kept ((k, v) ∷ d) h = elim (Bool-cases (is_expired time t.ttl_seconds v)) [
    | inl old ↦
        (let (absent, still) = Distinct-remove k v kept d h in
          let counted : BoundedTable K V = record t { evicted_count = t.evicted_count + 1 } in
          ground (
            arith,
            old,
            lookup_here k v kept d absent,
            erase_here k v kept d absent,
            delete_all_lem time counted kept d still,
          ))
    | inr young ↦
        (let shift = append_assoc kept ((k, v) ∷ []) in
          ground (
            arith,
            young,
            shift d,
            shift (unexpired time t.ttl_seconds d),
            delete_all_lem time t (kept ++ (k, v) ∷ []) d (rw shift h),
          ))
  ]

  -- On a table with no key twice `_evict_expired` raises no KeyError. It removes exactly the
  -- entries older than the time to live, keeps the others in their order, and counts each removal.
  pub evict_expired-eq-unexpired :
      (time : ℕ) (t : BoundedTable K V)
      → Distinct t.table
      → evict_expired time t
        ≡ some (record t {
          table = unexpired time t.ttl_seconds t.table;
          evicted_count =
              t.evicted_count + (length t.table - length (unexpired time t.ttl_seconds t.table));
        })
  unfolding evict_expired
  evict_expired-eq-unexpired time t h =
      ground
        (arith, delete_all_lem time t [] t.table h, length-unexpired time t.ttl_seconds t.table)
