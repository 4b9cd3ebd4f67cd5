-- ===== src/Json/Lookup.antt =====
-- What the fields of a canonical object hold.
use mcp_odoo.Prelude.{
  String, ◌≡◌, ◌∙◌, refl, Bool-cases, Option, none, some, inl, inr, arith, eq_iff, str_eq,
  if◌then◌else◌,
}
use mcp_odoo.Json.{
  Value, Fields, end, field, get_field, insert_field, sort_keys, sort_fields, normalize,
  normalize_fields, canonical,
}

-- the value of an optional field, in canonical form
abbrev pub canonical_option : Option Value → Option Value
canonical_option none = none
canonical_option (some v) = some (canonical v)

get_field-insert_field :
    (k j : String) (v : Value) (fs : Fields)
    → get_field j (insert_field k v fs) ≡ (if str_eq k j then some v else get_field j fs)
unfolding insert_field
get_field-insert_field k j v end = refl
get_field-insert_field k j v (field i w fs) =
    ground (arith, get_field-insert_field k j v fs, eq_iff k j, eq_iff i j, eq_iff k i)

pub get_field-canonical :
    (k : String) (fs : Fields)
    → get_field k (sort_fields (normalize_fields fs)) ≡ canonical_option (get_field k fs)
unfolding sort_fields canonical normalize_fields
get_field-canonical k end = refl
get_field-canonical k (field j v fs) = elim (Bool-cases (str_eq j k)) [
  | inl same ↦
      get_field-insert_field j k (sort_keys (normalize v)) (sort_fields (normalize_fields fs))
      ∙ rw same refl
  | inr other ↦
      get_field-insert_field j k (sort_keys (normalize v)) (sort_fields (normalize_fields fs))
      ∙ rw other (get_field-canonical k fs)
]
