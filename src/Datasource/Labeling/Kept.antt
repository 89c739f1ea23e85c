-- ===== src/Datasource/Labeling/Kept.antt =====
-- Which labels a row is given, and what they leave of it.
use mathlib.Core.Option
use sih.Datasource.Labels.{given, given2}
use sih.Datasource.Records.{get_or}
use sih.Dict.{lookup}
use sih.Prelude.Eq.{◌==◌, Eq, nat_eq, string_eq, pair_eq}
use sih.Prelude.{
  false, true, ◌∷◌, [], List, some, none, Option, ◌&&◌, not, Bool, refl, ◌≡◌, String, if◌then◌else◌,
}
use sih.Datasource.Extractor.Rows.{FlowRow}
use sih.Datasource.Labeling.{
  label_severities, label_one, Sidecar, inherit_attack, Labeled, row_key, label_row, LabelKey,
  label_found,
}

abbrev label_key_eq : Eq LabelKey
label_key_eq = pair_eq

-- The last entry for a flow, or else `found`.
unfoldable pub last_entry : LabelKey → List Labeled → Option Labeled → Option Labeled
last_entry key [] found = found
last_entry key (entry ∷ entries) found =
    last_entry key entries (if label_key_eq.beq entry.key key then some entry else found)

-- All entries, if each of them converts.
unfoldable pub converted : {A : Type 0} → List (Option A) → Option (List A)
converted [] = some []
converted (none ∷ entries) = none
converted (some entry ∷ entries) = Option.map (λ rest. entry ∷ rest) (converted entries)

-- What the map of the labels holds: for each key the last entry, where all entries convert.
HoldsLast :
    Option (List (LabelKey × Labeled)) → List (LabelKey × Labeled) → Option (List Labeled) → Type 0
HoldsLast none old none = Unit
HoldsLast none old (some entries) = ⊥
HoldsLast (some labels) old none = ⊥
HoldsLast (some labels) old (some entries) =
    (key : LabelKey) → lookup key labels ≡ last_entry key entries (lookup key old)

-- What a label does not change.
abbrev pub IsSameFlow : {F : Type 0} → FlowRow F → FlowRow F → Type 0
IsSameFlow a b =
    (row_key a ≡ row_key b)
    × (a.src_port ≡ b.src_port)
    × (a.timestamp ≡ b.timestamp)
    × (a.pkt_count ≡ b.pkt_count)
    × (a.byte_count ≡ b.byte_count)
    × (a.columns ≡ b.columns)

-- The attack of the capture as the family of a flow, and whether it is named.
abbrev pub capture_family : (String → Bool) → Sidecar → String
capture_family is_dga side = if is_dga side.attack_type then "C2_BEACON" else side.attack_type

abbrev pub is_named : Sidecar → Bool
is_named side = not (side.attack_type == "") && not (side.attack_type == "BENIGN")

-- A row that is replaced under a test, by one of the same flow with the property `Q`.
replaced :
    {F : Type 0} (Q : FlowRow F → Type 0) (b : Bool) (made r : FlowRow F)
    → IsSameFlow made r
    → Q made
    → IsSameFlow (if b then made else r) r
      × (if b then Q (if b then made else r) else ((if b then made else r) ≡ r))
replaced Q true made r same q = (same, q)
replaced Q false made r same q = ((refl, refl, refl, refl, refl, refl), refl)

module _ {F : Type 0} (family_of : String → String) (is_dga : String → Bool) where
  -- The labels of `out`, for a row `r` with the last entry that has its key, or with none.
  unfoldable pub HasLabels : Sidecar → Option Labeled → FlowRow F → FlowRow F → Type 0
  HasLabels side (some entry) r out =
      (out.attack_family ≡ family_of (given2 "BENIGN" entry.attack_family entry.label))
      × (out.severity ≡ given (get_or "LOW" out.attack_family label_severities) entry.severity)
      × (out.generator ≡ given r.generator entry.generator)
  HasLabels side none r out =
      if is_named side
      then (out.attack_family ≡ capture_family is_dga side)
        × (out.severity ≡ get_or "HIGH" (capture_family is_dga side) label_severities)
        × (out.generator ≡ side.generator_mode)
      else (out ≡ r)

  abbrev pub IsLabelled : Sidecar → List Labeled → FlowRow F → FlowRow F → Type 0
  IsLabelled side entries r out =
      IsSameFlow out r × HasLabels side (last_entry (row_key r) entries none) r out

  unfoldable pub AllLabelled : Sidecar → List Labeled → List (FlowRow F) → List (FlowRow F) → Type 0
  AllLabelled side entries [] [] = Unit
  AllLabelled side entries [] (out ∷ outs) = ⊥
  AllLabelled side entries (r ∷ rows) [] = ⊥
  AllLabelled side entries (r ∷ rows) (out ∷ outs) =
      IsLabelled side entries r out × AllLabelled side entries rows outs

  unfoldable pub AreApplied :
      Sidecar → Option (List Labeled) → List (FlowRow F) → List (FlowRow F) → Type 0
  AreApplied side none rows outs = outs ≡ rows
  AreApplied side (some entries) rows outs = AllLabelled side entries rows outs

  label_found-HasLabels :
      (side : Sidecar) (found : Option Labeled) (r : FlowRow F)
      → IsSameFlow (label_found family_of is_dga side found r) r
        × HasLabels side found r (label_found family_of is_dga side found r)
  unfolding label_found label_row inherit_attack HasLabels
  label_found-HasLabels side (some entry) r =
      ((refl, refl, refl, refl, refl, refl), (refl, refl, refl))
  label_found-HasLabels side none r =
      let family = capture_family is_dga side in
      replaced
        (λ out.
          (out.attack_family ≡ family)
          × (out.severity ≡ get_or "HIGH" family label_severities)
          × (out.generator ≡ side.generator_mode))
        (is_named side)
        (record r {
          attack_family = family;
          severity = get_or "HIGH" family label_severities;
          generator = side.generator_mode;
        })
        r (refl, refl, refl, refl, refl, refl) (refl, refl, refl)

  pub label_one_same :
      (side : Sidecar) (labels : List (LabelKey × Labeled)) (r : FlowRow F)
      → IsSameFlow (label_one family_of is_dga side labels r) r
  unfolding label_one
  label_one_same side labels r = (label_found-HasLabels side (lookup (row_key r) labels) r).0
