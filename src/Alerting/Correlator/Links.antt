-- ===== src/Alerting/Correlator/Links.antt =====
-- What the correlator links an alert to, against the list of all alerts it has seen.
use sih.Alerting.Correlator.Window.{named, postings_of}
use sih.Alerting.Correlator.{
  cap_related, ids_at, postings_at, Index, fresh_ids, collected, Recent, is_old,
}
use sih.Prelude.Eq.{◌==◌, string_eq}
use sih.Dict.Keys.{NoRepeat, occurs, occurs-append}
use sih.Prelude.{
  ◌⊎◌, ap₂, inr, inl, ◌∙◌, sym, ◌≤◌, ◌-◌, suc, zero, length-drop, drop, length, Bool-cases, ltb,
  arith, ◌++◌, ◌∷◌, [], List, ◌||◌, false, true, Bool, refl, ◌≡◌, String, ℕ, All, if◌then◌else◌,
}

-- Is the alert `r` not before the cutoff, and is one of its addresses `src` or `dst`?
unfoldable pub linked : ℕ → ℕ → String → String → Recent → Bool
linked window now src dst r =
    if is_old window now r.time
    then false
    else (named src r.src || named src r.dst || named dst r.src || named dst r.dst)

-- The ids of the linked alerts of a list.
unfoldable pub linked_ids : ℕ → ℕ → String → String → List Recent → List String
linked_ids window now src dst [] = []
linked_ids window now src dst (r ∷ rest) =
    let later = linked_ids window now src dst rest in
    if linked window now src dst r then r.alert_id ∷ later else later

postings_of_blank : (l : List Recent) → postings_of "" l ≡ []
unfolding postings_of named
postings_of_blank [] = refl
postings_of_blank (r ∷ l) = ground (arith, postings_of_blank l)

ids_at-fresh :
    (window now : ℕ) (ip : String) (index : Index) (l : List Recent)
    → postings_at ip index ≡ postings_of ip l
    → ids_at window now ip index ≡ fresh_ids window now (postings_of ip l)
unfolding ids_at
ids_at-fresh window now ip index l h = elim (Bool-cases (ip == "")) [
  | inl blank ↦
      (let e : ip ≡ "" = (string_eq.beq_iff ip "").0 blank in
        rw (blank, ids_at) (unfold fresh_ids in rw (e, postings_of_blank l)))
  | inr address ↦ rw (address, ids_at, h)
]

module _ (window now : ℕ) (src dst : String) where
  pub linked_ids-append :
      (a b : List Recent)
      → linked_ids window now src dst (a ++ b)
        ≡ linked_ids window now src dst a ++ linked_ids window now src dst b
  unfolding linked_ids
  linked_ids-append [] b = refl
  linked_ids-append (r ∷ a) b = ground (arith, linked_ids-append a b)

  pub linked_ids_stale :
      (l : List Recent)
      → All (λ r. is_old window now r.time ≡ true) l
      → linked_ids window now src dst l ≡ []
  unfolding linked_ids linked
  linked_ids_stale [] h = refl
  linked_ids_stale (r ∷ l) h = ground (arith, linked_ids_stale l h.1)

  fresh_ids-occurs :
      (x : String) (l : List Recent)
      → (occurs x (fresh_ids window now (postings_of src l))
          || occurs x (fresh_ids window now (postings_of dst l)))
        ≡ occurs x (linked_ids window now src dst l)
  unfolding occurs fresh_ids postings_of linked_ids linked
  fresh_ids-occurs x [] = refl
  fresh_ids-occurs x (r ∷ l) = ground (arith, fresh_ids-occurs x l)

  pub collected-occurs :
      (x : String) (index : Index) (l : List Recent)
      → ((ip : String) → postings_at ip index ≡ postings_of ip l)
      → occurs x (collected window now src dst index) ≡ occurs x (linked_ids window now src dst l)
  unfolding collected
  collected-occurs x index l h =
      occurs-append x (ids_at window now src index) (ids_at window now dst index)
      ∙ ap₂ (λ (a b : List String). occurs x a || occurs x b)
          (ids_at-fresh window now src index l (h src))
          (ids_at-fresh window now dst index l (h dst))
      ∙ fresh_ids-occurs x l

-- How a set lists its elements: each once, in some order.
pub record IsSetOrder (set_order : List String → List String) : Type 0 where
  pub same : (ids : List String) (x : String) → occurs x (set_order ids) ≡ occurs x ids
  pub once : (ids : List String) → NoRepeat (set_order ids)

-- The ids that were added to an alert: each once and at most 20, of linked alerts only, and of all
-- of them unless there are 20.
pub record Links (ids : List String) (before after : List String) : Type 0 where
  pub added : List String
  pub extends : after ≡ before ++ added
  pub once : NoRepeat added
  pub capped : length added ≤ 20
  pub sound : (x : String) → occurs x added ≡ true → occurs x ids ≡ true
  pub complete : (length added ≡ 20) ⊎ ((x : String) → occurs x added ≡ occurs x ids)

NoRepeat-drop : (n : ℕ) (l : List String) → NoRepeat l → NoRepeat (drop n l)
NoRepeat-drop zero l h = h
NoRepeat-drop (suc n) [] h = tt
NoRepeat-drop (suc n) (x ∷ l) h = NoRepeat-drop n l h.1

occurs-drop :
    (n : ℕ) (x : String) (l : List String) → occurs x (drop n l) ≡ true → occurs x l ≡ true
unfolding occurs
occurs-drop zero x l h = h
occurs-drop (suc n) x [] h = h
occurs-drop (suc n) x (y ∷ l) h = ground (arith, occurs-drop n x l h)

pub cap_related-Links :
    (ids listed before : List String)
    → ((x : String) → occurs x listed ≡ occurs x ids)
    → NoRepeat listed
    → Links ids before (before ++ cap_related listed)
unfolding cap_related
cap_related-Links ids listed before same once = elim (Bool-cases (ltb 20 (length listed))) [
  | inl many ↦
      rw (many, cap_related)
        (record {
          added = drop (length listed - 20) listed;
          extends = refl;
          once = NoRepeat-drop (length listed - 20) listed once;
          capped = ground (arith, length-drop (length listed - 20) listed);
          sound = λ x h. sym (same x) ∙ occurs-drop (length listed - 20) x listed h;
          complete = inl (ground (arith, length-drop (length listed - 20) listed));
        })
  | inr few ↦
      rw (few, cap_related)
        (record {
          added = listed;
          extends = refl;
          once = once;
          capped = ground arith;
          sound = λ x h. sym (same x) ∙ h;
          complete = inr same;
        })
]
