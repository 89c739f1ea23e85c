-- ===== src/Alerting/Correlator/Window.antt =====
-- The eviction loops of the correlator: under times that do not fall, the index of postings by
-- address is exactly the list of recent alerts, seen from each address.
use sih.Alerting.Correlator.{is_old, evict_old, shrink, drop_old, expire_address, postings_at}
use sih.Alerting.Correlator.{Recent, Posting, Index}
use sih.Prelude.Eq.{◌==◌, string_eq}
use sih.Dict.{lookup, Distinct}
use sih.Dict.Laws.{lookup-put, lookup-erase, Distinct-put, Distinct-erase}
use sih.Prelude.{
  ◌++◌, ◌⊎◌, ap, All, inr, inl, ◌∙◌, Option-cases, Bool-cases, arith, ◌∷◌, [], List, some, none,
  false, true, Bool, refl, ◌≡◌, String, ◌≤◌, ℕ, if◌then◌else◌,
}

-- Is `ip` the address `a`? The empty text is no address.
unfoldable pub named : String → String → Bool
named ip a = if a == "" then false else a == ip

abbrev cons_if : Bool → Posting → List Posting → List Posting
cons_if true p l = p ∷ l
cons_if false p l = l

-- What the index should hold under `ip`: a posting for each address of each alert.
unfoldable pub postings_of : String → List Recent → List Posting
postings_of ip [] = []
postings_of ip (r ∷ rest) =
    cons_if (named ip r.src) (r.time, r.alert_id)
      (cons_if (named ip r.dst) (r.time, r.alert_id) (postings_of ip rest))

-- The times do not fall, and none is below the bound.
abbrev pub Ascending : ℕ → List Recent → Type 0
Ascending bound [] = Unit
Ascending bound (r ∷ rest) = (bound ≤ r.time) × Ascending r.time rest

module _ (window now : ℕ) where
  drop_old_idem :
      (l : List Posting) → drop_old window now (drop_old window now l) ≡ drop_old window now l
  unfolding drop_old
  drop_old_idem [] = refl
  drop_old_idem ((time, id) ∷ rest) = ground (arith, drop_old_idem rest)

  unnamed_absent :
      (ip j : String) (index : Index)
      → lookup ip index ≡ none
      → postings_at j index
        ≡ (if ip == j then drop_old window now (postings_at j index) else postings_at j index)
  unfolding postings_at drop_old
  unnamed_absent ip j index absent = ground (arith, string_eq.beq_iff ip j)

  named_there :
      (ip j : String) (index : Index) (l : List Posting)
      → lookup ip index ≡ some l
      → (if ip == j then drop_old window now l else postings_at j index)
        ≡ (if ip == j then drop_old window now (postings_at j index) else postings_at j index)
  unfolding postings_at
  named_there ip j index l there = ground (arith, string_eq.beq_iff ip j)

  shrink-Distinct :
      (ip : String) (l : List Posting) (index : Index)
      → Distinct index
      → Distinct (shrink ip l index)
  unfolding shrink
  shrink-Distinct ip [] index h = Distinct-erase ip index h
  shrink-Distinct ip (p ∷ kept) index h = Distinct-put ip (p ∷ kept) index h

  postings-shrink :
      (ip j : String) (l : List Posting) (index : Index)
      → Distinct index
      → postings_at j (shrink ip l index) ≡ (if ip == j then l else postings_at j index)
  unfolding shrink postings_at
  postings-shrink ip j [] index h = ground (arith, lookup-erase ip j index h)
  postings-shrink ip j (p ∷ kept) index h = ground (arith, lookup-put ip j (p ∷ kept) index)

  expire_address-Distinct :
      (ip : String) (index : Index) → Distinct index → Distinct (expire_address window now ip index)
  unfolding expire_address
  expire_address-Distinct ip index h = elim (Bool-cases (ip == "")) [
    | inl blank ↦ rw (blank, expire_address) h
    | inr address ↦ elim (Option-cases (lookup ip index)) [
      | inl absent ↦ rw (address, absent, expire_address) h
      | inr (l, there) ↦
          rw (address, there, expire_address) (shrink-Distinct ip (drop_old window now l) index h)
    ]
  ]

  postings-expire_address :
      (ip j : String) (index : Index)
      → Distinct index
      → postings_at j (expire_address window now ip index)
        ≡ (if named j ip then drop_old window now (postings_at j index) else postings_at j index)
  unfolding expire_address named
  postings-expire_address ip j index h = elim (Bool-cases (ip == "")) [
    | inl blank ↦ rw (blank, expire_address, named)
    | inr address ↦ elim (Option-cases (lookup ip index)) [
      | inl absent ↦ rw (address, absent, expire_address, named) (unnamed_absent ip j index absent)
      | inr (l, there) ↦
          rw (address, there, expire_address, named)
            (postings-shrink ip j (drop_old window now l) index h ∙ named_there ip j index l there)
    ]
  ]

  -- No posting is old, and the eviction leaves the list alone.
  abbrev Fresh : List Recent → Type 0
  Fresh = All (λ r. is_old window now r.time ≡ false)

  Ascending-Fresh :
      (bound : ℕ) (l : List Recent) → Ascending bound l → is_old window now bound ≡ false → Fresh l
  Ascending-Fresh bound [] h f = tt
  Ascending-Fresh bound (r ∷ rest) h f =
      let f' : is_old window now r.time ≡ false = ground arith in
      (f', Ascending-Fresh r.time rest h.1 f')

  drop_old-Fresh :
      (ip : String) (l : List Recent)
      → Fresh l
      → drop_old window now (postings_of ip l) ≡ postings_of ip l
  unfolding drop_old postings_of
  drop_old-Fresh ip [] h = refl
  drop_old-Fresh ip (r ∷ rest) h = ground (arith, drop_old-Fresh ip rest h.1)

  -- The index shows, under each address, the postings of the alerts, or those that the eviction of
  -- that address leaves.
  abbrev Settling : Index → List Recent → Type 0
  Settling index l =
      (ip : String)
      → (postings_at ip index ≡ postings_of ip l)
        ⊎ (postings_at ip index ≡ drop_old window now (postings_of ip l))

  abbrev expire_both : Recent → Index → Index
  expire_both r index = expire_address window now r.dst (expire_address window now r.src index)

  expire_both-Settling :
      (r : Recent) (rest : List Recent) (index : Index)
      → is_old window now r.time ≡ true
      → Distinct index
      → Settling index (r ∷ rest)
      → Settling (expire_both r index) rest
  unfolding postings_of drop_old
  expire_both-Settling r rest index old d h ip = ground (
    arith,
    h ip,
    postings-expire_address r.src ip index d,
    postings-expire_address r.dst ip (expire_address window now r.src index)
        (expire_address-Distinct r.src index d),
    drop_old_idem (postings_of ip rest),
  )

  settled :
      (ip : String) (l : List Recent) {shown : List Posting}
      → (shown ≡ postings_of ip l) ⊎ (shown ≡ drop_old window now (postings_of ip l))
      → drop_old window now (postings_of ip l) ≡ postings_of ip l
      → shown ≡ postings_of ip l
  settled ip l h e = ground arith

  -- What the two loops do to alerts in ascending order.
  pub record Evicted (l : List Recent) (out : List Recent × Index) : Type 0 where
    pub dropped : List Recent
    pub split : l ≡ dropped ++ out.0
    pub stale : All (λ r. is_old window now r.time ≡ true) dropped
    pub fresh : Fresh out.0
    pub distinct : Distinct out.1
    pub index : (ip : String) → postings_at ip out.1 ≡ postings_of ip out.0

  pub evict_old-Evicted :
      (bound : ℕ) (l : List Recent) (index : Index)
      → Ascending bound l
      → Distinct index
      → Settling index l
      → Evicted l (evict_old window now l index)
  unfolding evict_old
  evict_old-Evicted bound [] index asc d h = record {
    dropped = [];
    split = refl;
    stale = tt;
    fresh = tt;
    distinct = d;
    index = λ ip. settled ip [] (h ip) (drop_old-Fresh ip [] tt);
  }
  evict_old-Evicted bound (r ∷ rest) index asc d h = elim (Bool-cases (is_old window now r.time)) [
    | inl old ↦
        (let later =
            evict_old-Evicted r.time rest (expire_both r index) asc.1
              (expire_address-Distinct r.dst _ (expire_address-Distinct r.src index d))
              (expire_both-Settling r rest index old d h) in
          rw (old, evict_old)
            (record {
              dropped = r ∷ later.dropped;
              split = ap (◌∷◌ r) later.split;
              stale = (old, later.stale);
              fresh = later.fresh;
              distinct = later.distinct;
              index = later.index;
            }))
    | inr young ↦
        (let fresh : Fresh (r ∷ rest) = (young, Ascending-Fresh r.time rest asc.1 young) in
          rw (young, evict_old)
            (record {
              dropped = [];
              split = refl;
              stale = tt;
              fresh = fresh;
              distinct = d;
              index = λ ip. settled ip (r ∷ rest) (h ip) (drop_old-Fresh ip (r ∷ rest) fresh);
            }))
  ]
