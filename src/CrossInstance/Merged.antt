-- ===== src/CrossInstance/Merged.antt =====
-- The rows of an instance are found again in the merged ones.
use mcp_odoo.Prelude.{
  String, ◌≡◌, refl, ◌∙◌, ap, Bool, Bool-cases, false, none, some, List, [], ◌∷◌, ◌++◌, keep,
  str_eq, arith, eq_iff, eq_refl, inl, inr,
}
use mathlib.Core.Path.{subst}
use mcp_odoo.Prelude.Dict
use mcp_odoo.Prelude.Dict.{Dict}
use mcp_odoo.Prelude.Dict.Entries.{IsKeyed}
use mcp_odoo.Json.{Value, text, Fields, get_field}
use mcp_odoo.Json.Entries.{get_field-put_field}
use mcp_odoo.CrossInstance.{tag_row, tag_rows, tag_and_merge}

abbrev is_text : String → Value → Bool
is_text name (text s) = str_eq s name
is_text name v = false

-- whether a row is tagged with an instance
abbrev pub is_tagged : String → Fields → Bool
is_tagged name row = elim (get_field "_instance" row) [ none ↦ false | some v ↦ is_text name v ]

abbrev pub rows_of : String → Dict (List Fields) → List Fields
rows_of name results = elim (Dict.get name results) [ none ↦ [] | some rows ↦ rows ]

is_tagged-tag_row :
    (name other : String) (row : Fields) → is_tagged name (tag_row other row) ≡ str_eq other name
is_tagged-tag_row name other row =
    ground (arith, get_field-put_field "_instance" "_instance" (text other) row)

keep-append : (p : Fields → Bool) (xs ys : List Fields) → keep p (xs ++ ys) ≡ keep p xs ++ keep p ys
keep-append p [] ys = refl
keep-append p (x ∷ xs) ys = elim (Bool-cases (p x)) [
  | inl kept ↦ rw kept (ap (◌∷◌ x) (keep-append p xs ys))
  | inr left ↦ rw left (keep-append p xs ys)
]

append_empty : (xs : List Fields) → xs ++ [] ≡ xs
append_empty [] = refl
append_empty (x ∷ xs) = ap (◌∷◌ x) (append_empty xs)

module _ (name : String) where
  tagged_same :
      (rows : List Fields) → keep (is_tagged name) (tag_rows name rows) ≡ tag_rows name rows
  unfolding tag_rows
  tagged_same [] = refl
  tagged_same (row ∷ rows) =
      rw (is_tagged-tag_row name name row, eq_refl name)
        (ap (◌∷◌ (tag_row name row)) (tagged_same rows))

  tagged_other :
      (other : String) (rows : List Fields)
      → str_eq other name ≡ false
      → keep (is_tagged name) (tag_rows other rows) ≡ []
  unfolding tag_rows
  tagged_other other [] h = refl
  tagged_other other (row ∷ rows) h =
      rw (is_tagged-tag_row name other row, h) (tagged_other other rows h)

  tagged_absent :
      (results : Dict (List Fields))
      → Dict.get name results ≡ none
      → keep (is_tagged name) (tag_and_merge results) ≡ []
  unfolding tag_and_merge
  tagged_absent [] h = refl
  tagged_absent ((other, rows) ∷ results) h =
      let differs : str_eq other name ≡ false = ground (arith, h) in
      rw
        (
          keep-append (is_tagged name) (tag_rows other rows) (tag_and_merge results),
          tagged_other other rows differs,
        )
        (tagged_absent results (rw differs at h))

  -- Of the merged rows, those tagged with an instance are the rows of that instance, tagged, all of
  -- them and in their order.
  pub keep-tag_and_merge :
      (results : Dict (List Fields))
      → IsKeyed results
      → keep (is_tagged name) (tag_and_merge results) ≡ tag_rows name (rows_of name results)
  unfolding tag_and_merge tag_rows
  keep-tag_and_merge [] u = refl
  keep-tag_and_merge ((other, rows) ∷ results) u =
      keep-append (is_tagged name) (tag_rows other rows) (tag_and_merge results)
      ∙ elim (Bool-cases (str_eq other name)) [
        | inl same ↦
            let here = (eq_iff other name).0 same in
            rw (rows_of, same)
              (rw
                (
                  here,
                  tagged_same rows,
                  tagged_absent results (subst (λ n. Dict.get n results ≡ none) here u.0),
                )
                (append_empty (tag_rows name rows)))
        | inr differs ↦
            rw (tagged_other other rows differs, rows_of, differs) (keep-tag_and_merge results u.1)
      ]
