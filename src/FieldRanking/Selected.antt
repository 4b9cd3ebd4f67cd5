-- ===== src/FieldRanking/Selected.antt =====
-- Which fields `select_smart_fields` selects.
use mcp_odoo.Prelude.{
  ℕ, suc, ◌≤◌, max, String, ◌≡◌, ◌⊎◌, inl, inr, refl, ap, Bool, Bool-cases, false, not, ◌&&◌, ◌||◌,
  Option, none, some, List, [], ◌∷◌, ◌++◌, length, length-append, str_eq, arith, eq_iff,
}
use mcp_odoo.Prelude.Dict.{contains}
use mcp_odoo.Prelude.Int.{pos}
use mcp_odoo.Json.{Value, null, bool, int, float, text, list, dict, Fields, end, field}
use mcp_odoo.FieldRanking.{
  is_technical_field_name, is_skip_metadata, Candidate, insert_candidate, sort_candidates,
  force_fields, candidate_of, list_candidates, fill_selected, select_some, select_smart_fields,
}
use mcp_odoo.FieldRanking.Forced.{
  is_forced, contains-append, contains-force_fields, count_included, length-force_fields,
}

-- metadata of a field that is neither technical nor skipped
abbrev pub is_relevant : String → Value → Bool
is_relevant name (dict meta) = not (is_technical_field_name name) && not (is_skip_metadata meta)
is_relevant name _ = false

-- whether the metadata have a relevant entry of this name
abbrev pub has_relevant : String → Fields → Bool
has_relevant name end = false
has_relevant name (field k v metadata) =
    str_eq k name && is_relevant k v || has_relevant name metadata

abbrev has_name : List Candidate → String → Bool
has_name [] m = false
has_name ((_, n) ∷ cs) m = str_eq n m || has_name cs m

module _ (forced : List String) (m : String) where
  abbrev has_candidate : Option Candidate → Bool
  has_candidate none = false
  has_candidate (some (_, n)) = str_eq n m

  has_candidate-candidate_of :
      (k : String) (v : Value)
      → has_candidate (candidate_of forced k v)
        ≡ (not (contains forced m) && (str_eq k m && is_relevant k v))
  unfolding candidate_of
  has_candidate-candidate_of k (dict meta) = elim (Bool-cases (str_eq k m)) [
    | inl same ↦ ground (arith, same, ap (contains forced) ((eq_iff k m).0 same))
    | inr other ↦ ground (arith, other)
  ]
  has_candidate-candidate_of k null = ground arith
  has_candidate-candidate_of k (bool b) = ground arith
  has_candidate-candidate_of k (int a) = ground arith
  has_candidate-candidate_of k (float a e) = ground arith
  has_candidate-candidate_of k (text s) = ground arith
  has_candidate-candidate_of k (list vs) = ground arith

  has_name-elim :
      (o : Option Candidate) (cs : List Candidate)
      → has_name (elim o [ none ↦ cs | some c ↦ c ∷ cs ]) m ≡ (has_candidate o || has_name cs m)
  has_name-elim none cs = refl
  has_name-elim (some c) cs = refl

  has_name-list_candidates :
      (metadata : Fields)
      → has_name (list_candidates forced metadata) m
        ≡ (not (contains forced m) && has_relevant m metadata)
  unfolding list_candidates
  has_name-list_candidates end = ground arith
  has_name-list_candidates (field k v metadata) = ground (
    arith,
    has_name-elim (candidate_of forced k v) (list_candidates forced metadata),
    has_candidate-candidate_of k v,
    has_name-list_candidates metadata,
  )

has_name-insert_candidate :
    (c : Candidate) (ds : List Candidate) (m : String)
    → has_name (insert_candidate c ds) m ≡ has_name (c ∷ ds) m
unfolding insert_candidate
has_name-insert_candidate c [] m = refl
has_name-insert_candidate c (d ∷ ds) m = ground (arith, has_name-insert_candidate c ds m)

has_name-sort_candidates :
    (cs : List Candidate) (m : String) → has_name (sort_candidates cs) m ≡ has_name cs m
unfolding sort_candidates
has_name-sort_candidates [] m = refl
has_name-sort_candidates (c ∷ cs) m =
    ground
      (arith, has_name-insert_candidate c (sort_candidates cs) m, has_name-sort_candidates cs m)

module _ (max_fields : ℕ) (m : String) where
  contains-fill_selected :
      (selected : List String) (cs : List Candidate)
      → (contains (fill_selected max_fields selected cs) m ≡ (contains selected m || has_name cs m))
        ⊎ ((contains (fill_selected max_fields selected cs) m ≡ false)
            × (contains selected m ≡ false)
            × (max_fields ≤ length (fill_selected max_fields selected cs)))
  unfolding fill_selected
  contains-fill_selected selected [] = inl (ground arith)
  contains-fill_selected selected ((s, n) ∷ cs) = elim (Bool-cases (str_eq n m)) [
    | inr other ↦ ground (
      arith,
      other,
      contains-append selected n m,
      contains-fill_selected selected cs,
      contains-fill_selected (selected ++ n ∷ []) cs,
    )
    | inl same ↦ ground (
      arith,
      same,
      ap (contains selected) ((eq_iff n m).0 same),
      contains-append selected n m,
      contains-fill_selected selected cs,
      contains-fill_selected (selected ++ n ∷ []) cs,
    )
  ]

length-fill_selected :
    (max_fields : ℕ) (selected : List String) (cs : List Candidate)
    → length (fill_selected max_fields selected cs) ≤ max max_fields (length selected)
unfolding fill_selected
length-fill_selected max_fields selected [] = omega arith
length-fill_selected max_fields selected ((s, n) ∷ cs) = ground (
  arith,
  length-append selected (n ∷ []),
  length-fill_selected max_fields selected cs,
  length-fill_selected max_fields (selected ++ n ∷ []) cs,
)

module _ (metadata : Fields) (n : ℕ) (always_include : List String) where
  abbrev forced : List String
  forced = force_fields metadata ("id" ∷ []) always_include

  abbrev selected : List String
  selected = select_some metadata n always_include

  length-select_some : length selected ≤ max n (suc (count_included metadata always_include))
  unfolding select_some
  length-select_some = omega (
    arith,
    length-force_fields metadata ("id" ∷ []) always_include,
    length-fill_selected n forced (sort_candidates (list_candidates forced metadata)),
  )

  contains-select_some :
      (m : String)
      → (contains selected m ≡ (is_forced metadata always_include m || has_relevant m metadata))
        ⊎ ((contains selected m ≡ false)
            × (is_forced metadata always_include m ≡ false)
            × (n ≤ length selected))
  unfolding select_some
  contains-select_some m = ground (
    arith,
    contains-fill_selected n m forced (sort_candidates (list_candidates forced metadata)),
    contains-force_fields metadata m ("id" ∷ []) always_include,
    has_name-sort_candidates (list_candidates forced metadata) m,
    has_name-list_candidates forced m metadata,
  )

select_smart_fields-suc :
    (metadata : Fields) (n : ℕ) (always_include : List String)
    → select_smart_fields metadata (pos (suc n)) always_include
      ≡ select_some metadata (suc n) always_include
unfolding select_smart_fields
select_smart_fields-suc metadata n always_include = ground arith

-- Where at least one field is allowed: at most max_fields fields are selected, or those that are
-- forced if they are more, the identifier and each known name of always_include; and a field is
-- selected if and only if it is forced or relevant, unless the selection is full and the field is
-- not forced.
pub select_smart_fields-IsSelection :
    (metadata : Fields) (n : ℕ) (always_include : List String) (name : String)
    → (length (select_smart_fields metadata (pos (suc n)) always_include)
        ≤ max (suc n) (suc (count_included metadata always_include)))
      × ((contains (select_smart_fields metadata (pos (suc n)) always_include) name
            ≡ (is_forced metadata always_include name || has_relevant name metadata))
          ⊎ ((contains (select_smart_fields metadata (pos (suc n)) always_include) name ≡ false)
              × (is_forced metadata always_include name ≡ false)
              × (suc n ≤ length (select_smart_fields metadata (pos (suc n)) always_include))))
select_smart_fields-IsSelection metadata n always_include name =
    rw (select_smart_fields-suc metadata n always_include) (
      length-select_some metadata (suc n) always_include,
      contains-select_some metadata (suc n) always_include name,
    )
