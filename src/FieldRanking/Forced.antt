-- ===== src/FieldRanking/Forced.antt =====
-- The fields that `select_smart_fields` selects in any case, and how many they are.
use mcp_odoo.Prelude.{
  keep, ℕ, ◌+◌, String, ◌≡◌, ◌⊎◌, inl, inr, refl, ap, Bool, Bool-cases, true, false, not, ◌&&◌,
  ◌||◌, List, [], ◌∷◌, ◌++◌, length, length-append, str_eq, arith, eq_iff,
}
use mathlib.Core.Path.{subst}
use mcp_odoo.Prelude.Dict.{contains}
use mcp_odoo.Json.{Fields}
use mcp_odoo.Json.Entries.{has_key}
use mcp_odoo.FieldRanking.{force_fields}

-- whether a field is selected in any case: the identifier, and those that are always included
abbrev pub is_forced : Fields → List String → String → Bool
is_forced metadata always_include name =
    str_eq "id" name || contains always_include name && has_key name metadata

pub contains-append :
    (ns : List String) (n m : String) → contains (ns ++ n ∷ []) m ≡ (contains ns m || str_eq n m)
contains-append [] n m = ground arith
contains-append (k ∷ ns) n m = ground (arith, contains-append ns n m)

module _ (metadata : Fields) (m : String) where
  pub contains-force_fields :
      (forced names : List String)
      → contains (force_fields metadata forced names) m
        ≡ (contains forced m || contains names m && has_key m metadata)
  unfolding force_fields
  contains-force_fields forced [] = ground arith
  contains-force_fields forced (n ∷ names) = elim (Bool-cases (str_eq n m)) [
    | inr other ↦ ground (
      arith,
      other,
      contains-append forced n m,
      contains-force_fields forced names,
      contains-force_fields (forced ++ n ∷ []) names,
    )
    | inl same ↦ ground (
      arith,
      same,
      ap (contains forced) ((eq_iff n m).0 same),
      ap (λ k. has_key k metadata) ((eq_iff n m).0 same),
      contains-append forced n m,
      contains-force_fields forced names,
      contains-force_fields (forced ++ n ∷ []) names,
    )
  ]

length-keep-keep :
    (p q r : String → Bool) (ns : List String)
    → ((n : String) → r n ≡ (p n && q n))
    → length (keep p (keep q ns)) ≡ length (keep r ns)
length-keep-keep p q r [] h = refl
length-keep-keep p q r (n ∷ ns) h = ground (arith, length-keep-keep p q r ns h, h n)

-- the names without repetition
abbrev pub distinct : List String → List String
distinct [] = []
distinct (n ∷ ns) = n ∷ keep (λ m. not (str_eq n m)) (distinct ns)

-- how many of the names are forced besides the identifier: each known one once
abbrev pub count_included : Fields → List String → ℕ
count_included metadata always_include =
    length
      (keep (λ m. has_key m metadata && not (contains ("id" ∷ []) m)) (distinct always_include))

absorb : (a b : Bool) → (a ≡ false) ⊎ (b ≡ true) → a ≡ (a && b)
absorb a b h = ground arith

left_out :
    (metadata : Fields) (forced : List String) (n : String)
    → (has_key n metadata && not (contains forced n)) ≡ false
    → (m : String)
    → (has_key m metadata && not (contains forced m))
      ≡ ((has_key m metadata && not (contains forced m)) && not (str_eq n m))
left_out metadata forced n left m = elim (Bool-cases (str_eq n m)) [
  | inl same ↦ absorb _ _ (
      inl (
        subst (λ k. (has_key k metadata && not (contains forced k)) ≡ false) ((eq_iff n m).0 same)
          left))
  | inr other ↦ absorb _ _ (inr (ap not other))
]

pub length-force_fields :
    (metadata : Fields) (forced names : List String)
    → length (force_fields metadata forced names)
      ≡ length forced
        + length (keep (λ m. has_key m metadata && not (contains forced m)) (distinct names))
unfolding force_fields
length-force_fields metadata forced [] = omega arith
length-force_fields metadata forced (n ∷ names) =
    elim (Bool-cases (has_key n metadata && not (contains forced n))) [
      | inl added ↦ ground (
        arith,
        added,
        length-append forced (n ∷ []),
        length-force_fields metadata (forced ++ n ∷ []) names,
        length-keep-keep (λ m. has_key m metadata && not (contains forced m))
            (λ m. not (str_eq n m)) (λ m. has_key m metadata && not (contains (forced ++ n ∷ []) m))
            (distinct names) (λ m. ground (arith, contains-append forced n m)),
      )
      | inr left ↦ ground (
        arith,
        left,
        length-force_fields metadata forced names,
        length-keep-keep (λ m. has_key m metadata && not (contains forced m))
            (λ m. not (str_eq n m)) (λ m. has_key m metadata && not (contains forced m))
            (distinct names) (left_out metadata forced n left),
      )
    ]
