-- ===== src/FieldPolicy/Redaction.antt =====
-- What a field policy removes: exactly what one of its rules forbids.
use mathlib.Core.Path.{subst}
use mcp_odoo.Prelude.{
  String, ◌≡◌, ◌↔◌, inl, inr, refl, ◌∙◌, Bool, true, false, not, ◌&&◌, ◌||◌, Option, none, some,
  List, [], ◌∷◌, All, map, ap, arith, str_eq, eq_iff, eq_refl, if◌then◌else◌, Bool-cases,
}
use mcp_odoo.Prelude.Dict
use mcp_odoo.Prelude.Dict.{Dict, contains, keys}
use mcp_odoo.FieldPolicy.{
  FieldPolicy, Effective, effective, split_by, filter_fields, with_names, redact_record,
  insert_name, sorted_set, sorted, redact_each, redact_records, check_aggregate,
}
use mcp_odoo.FieldPolicy.Rules.{
  IsPermitted, permits, permits_iff, keeps, contains-append, contains-split_by, and_iff,
  and_not_iff,
}

module _ {ℓ} {V : Type ℓ} where
  -- the field is a key of one of the records
  abbrev pub occurs : List (Dict V) → String → Bool
  occurs [] k = false
  occurs (row ∷ rows) k = contains (keys row) k || occurs rows k

  abbrev has_value : Option V → Bool
  has_value none = false
  has_value (some v) = true

module _ {ℓ} {V : Type ℓ} where
  get-with_names :
      (names : List String) (row : Dict V) (k : String)
      → Dict.get k (with_names names row) ≡ (if contains names k then Dict.get k row else none)
  unfolding with_names
  get-with_names names [] k = ground arith
  get-with_names names ((j, v) ∷ row) k = ground (arith, get-with_names names row k, eq_iff j k)

  get-absent : (row : Dict V) (k : String) → contains (keys row) k ≡ false → Dict.get k row ≡ none
  get-absent [] k h = refl
  get-absent ((j, v) ∷ row) k h = ground (arith, get-absent row k)

module _ {ℓ} {V : Type ℓ} where
  contains-has : (row : Dict V) (k : String) → contains (keys row) k ≡ has_value (Dict.get k row)
  contains-has [] k = refl
  contains-has ((j, v) ∷ row) k = ground (arith, contains-has row k)

module _ (policy : FieldPolicy) (instance model : String) (names : List String)
    (name : String) where
  -- The names that `filter_fields` keeps are those asked for that the policy permits, and the names
  -- that it reports as redacted are those asked for that it does not permit.
  pub filter_fields-IsPermitted :
      ((contains (filter_fields policy instance model names).0 name ≡ true)
        ↔ ((contains names name ≡ true) × IsPermitted policy instance model name))
      × ((contains (filter_fields policy instance model names).1 name ≡ true)
          ↔ ((contains names name ≡ true) × (¬ IsPermitted policy instance model name)))
  unfolding filter_fields
  filter_fields-IsPermitted =
      let split = contains-split_by (effective policy instance model) names name in
      (
        and_iff _ _ _ split.0 (permits_iff policy instance model name),
        and_not_iff _ _ _ split.1 (permits_iff policy instance model name),
      )

module _ {ℓ} {V : Type ℓ} (policy : FieldPolicy) (instance model : String) where
  get-redact_record :
      (row : Dict V) (k : String)
      → Dict.get k (redact_record policy instance model row).0
        ≡ (if permits policy instance model k then Dict.get k row else none)
  unfolding redact_record filter_fields
  get-redact_record row k = go (effective policy instance model)
    where
      go :
          (e : Option Effective)
          → Dict.get k
              (elim e as (λ x. Dict V × List String) [
                | none ↦ (row, [])
                | some _ ↦ (with_names (split_by e (keys row)).0 row, (split_by e (keys row)).1)
              ]).0
            ≡ (if keeps e k then Dict.get k row else none)
      go none = refl
      go (some e) =
          rw get-with_names
            (ground (arith, (contains-split_by (some e) (keys row) k).0, get-absent row k))

  redacted-redact_record :
      (row : Dict V) (k : String)
      → contains (redact_record policy instance model row).1 k
        ≡ (contains (keys row) k && not (permits policy instance model k))
  unfolding redact_record filter_fields
  redacted-redact_record row k = go (effective policy instance model)
    where
      go :
          (e : Option Effective)
          → contains
              (elim e as (λ x. Dict V × List String) [
                | none ↦ (row, [])
                | some _ ↦ (with_names (split_by e (keys row)).0 row, (split_by e (keys row)).1)
              ]).1
              k
            ≡ (contains (keys row) k && not (keeps e k))
      go none = ground arith
      go (some e) = (contains-split_by (some e) (keys row) k).1

  -- A redacted record has a value under a key exactly if the record has it there and the policy
  -- permits the field.
  pub redact_record-IsPermitted :
      (row : Dict V) (k : String) (v : V)
      → (Dict.get k (redact_record policy instance model row).0 ≡ some v)
        ↔ ((Dict.get k row ≡ some v) × IsPermitted policy instance model k)
  redact_record-IsPermitted row k v = elim (Bool-cases (permits policy instance model k)) [
    | inl yes_k ↦ (
      λ h. (cc (get-redact_record row k, yes_k, h), (permits_iff policy instance model k).0 yes_k),
      λ h. get-redact_record row k ∙ rw yes_k h.0,
    )
    | inr no_k ↦ (
      λ h. cc (get-redact_record row k, no_k, h),
      λ h. cc (no_k, (permits_iff policy instance model k).1 h.1),
    )
  ]

  keys-redact_record :
      (row : Dict V) (k : String)
      → contains (keys (redact_record policy instance model row).0) k
        ≡ (contains (keys row) k && permits policy instance model k)
  keys-redact_record row k = rw (contains-has, get-redact_record, contains-has row k) (ground arith)

  redact_each_names :
      (rows : List (Dict V)) (k : String)
      → contains (redact_each policy instance model rows).1 k
        ≡ (occurs rows k && not (permits policy instance model k))
  unfolding redact_each
  redact_each_names [] k = ground arith
  redact_each_names (row ∷ rows) k =
      rw (contains-append, redacted-redact_record, redact_each_names rows k) (ground arith)

  occurs-redact_each :
      (rows : List (Dict V)) (k : String)
      → occurs (redact_each policy instance model rows).0 k
        ≡ (occurs rows k && permits policy instance model k)
  unfolding redact_each
  occurs-redact_each [] k = ground arith
  occurs-redact_each (row ∷ rows) k =
      rw (keys-redact_record, occurs-redact_each rows k) (ground arith)

contains-insert_name :
    (j : String) (js : List String) (k : String)
    → contains (insert_name j js) k ≡ (str_eq j k || contains js k)
unfolding insert_name
contains-insert_name j [] k = refl
contains-insert_name j (i ∷ js) k =
    ground (arith, contains-insert_name j js k, eq_iff j i, eq_iff i k, eq_iff j k)

pub contains-sorted_set :
    (js : List String) (k : String) → contains (sorted_set js) k ≡ contains js k
unfolding sorted_set
contains-sorted_set [] k = refl
contains-sorted_set (j ∷ js) k = rw contains-insert_name (rw (contains-sorted_set js k))

module _ {ℓ} {V : Type ℓ} (policy : FieldPolicy) (instance model : String) where
  outputs-redact_each :
      (rows : List (Dict V))
      → (redact_each policy instance model rows).0
        ≡ map (λ row. (redact_record policy instance model row).0) rows
  unfolding redact_each
  outputs-redact_each [] = refl
  outputs-redact_each (row ∷ rows) =
      ap (◌∷◌ (redact_record policy instance model row).0) (outputs-redact_each rows)

  -- `redact_records` gives back each record redacted, in order; the fields that are left in them are
  -- those of the records that the policy permits, and the names that it reports are those that it
  -- does not permit.
  pub redact_records-IsPermitted :
      (rows : List (Dict V)) (k : String)
      → ((redact_records policy instance model rows).0
          ≡ map (λ row. (redact_record policy instance model row).0) rows)
        × ((occurs (redact_records policy instance model rows).0 k ≡ true)
            ↔ ((occurs rows k ≡ true) × IsPermitted policy instance model k))
        × ((contains (redact_records policy instance model rows).1 k ≡ true)
            ↔ ((occurs rows k ≡ true) × (¬ IsPermitted policy instance model k)))
  unfolding redact_records
  redact_records-IsPermitted rows k = (
    outputs-redact_each rows,
    and_iff _ _ _ (occurs-redact_each policy instance model rows k)
        (permits_iff policy instance model k),
    and_not_iff _ _ _
        (contains-sorted_set (redact_each policy instance model rows).1 k
          ∙ redact_each_names policy instance model rows k)
        (permits_iff policy instance model k),
  )

All-of-contains :
    (P : String → Type 0) (names : List String)
    → ((n : String) → contains names n ≡ true → P n)
    → All P names
All-of-contains P [] h = tt
All-of-contains P (n ∷ ns) h =
    (h n (rw (eq_refl n)), All-of-contains P ns (λ m c. h m (rw c (ground arith))))

contains-of-All :
    (P : String → Type 0) (names : List String) (n : String)
    → All P names
    → contains names n ≡ true
    → P n
contains-of-All P [] n a c = cc
contains-of-All P (m ∷ ms) n a c = elim (Bool-cases (str_eq m n)) [
  | inl t ↦ subst P ((eq_iff m n).0 t) a.0
  | inr f ↦ contains-of-All P ms n a.1 (ground arith)
]

module _ (policy : FieldPolicy) (instance model : String) (names : List String) where
  -- An aggregation goes through exactly if the policy permits all of its fields.
  pub check_aggregate-IsPermitted :
      (check_aggregate policy instance model names ≡ none)
      ↔ All (IsPermitted policy instance model) names
  unfolding check_aggregate
  check_aggregate-IsPermitted =
      go (filter_fields policy instance model names).1
        (λ n. (filter_fields-IsPermitted policy instance model names n).1)
    where
      go :
          (redacted : List String)
          → ((n : String)
              → (contains redacted n ≡ true)
                ↔ ((contains names n ≡ true) × (¬ IsPermitted policy instance model n)))
          → ((elim redacted as (λ x. Option (List String)) [
            | [] ↦ none
            | n ∷ ns ↦ some (sorted (n ∷ ns))
          ])
              ≡ none)
            ↔ All (IsPermitted policy instance model) names
      go [] i = (
        λ _. All-of-contains (IsPermitted policy instance model) names (λ n c.
            elim (Bool-cases (permits policy instance model n)) [
              | inl p ↦ (permits_iff policy instance model n).0 p
              | inr p ↦ cc ((i n).1 (c, λ q. cc ((permits_iff policy instance model n).1 q)))
            ]),
        λ _. refl,
      )
      go (r ∷ rs) i =
          let bad = (i r).0 (rw (eq_refl r)) in
          (
            λ h. cc,
            λ a.
                absurd
                  (bad.1 (contains-of-All (IsPermitted policy instance model) names r a bad.0)),
          )
