-- ===== src/Json/Entries.antt =====
-- What the fields of an object hold after one of them is written or taken out.
use mcp_odoo.Prelude.{
  String, ◌≡◌, refl, Bool, true, false, none, some, str_eq, if◌then◌else◌, arith, eq_iff,
  Bool-cases, inl, inr,
}
use mcp_odoo.Json.{Value, Fields, end, field, get_field, put_field}

-- `k in d`
abbrev pub has_key : String → Fields → Bool
has_key k fs = elim (get_field k fs) [ none ↦ false | some _ ↦ true ]

-- `d.pop(k)`
unfoldable pub remove_field : String → Fields → Fields
remove_field k end = end
remove_field k (field j v fs) =
    let rest = remove_field k fs in if str_eq j k then fs else field j v rest

-- no key stands twice, as in every dict
abbrev pub IsDict : Fields → Type 0
IsDict end = Unit
IsDict (field k v fs) = (has_key k fs ≡ false) × IsDict fs

pub get_field-put_field :
    (k j : String) (v : Value) (fs : Fields)
    → get_field j (put_field k v fs) ≡ (if str_eq k j then some v else get_field j fs)
get_field-put_field k j v end = refl
get_field-put_field k j v (field i w fs) =
    ground (arith, eq_iff k j, eq_iff i k, eq_iff i j, get_field-put_field k j v fs)

pub get_field-remove_field_same :
    (k : String) (fs : Fields) → IsDict fs → get_field k (remove_field k fs) ≡ none
unfolding remove_field
get_field-remove_field_same k end d = refl
get_field-remove_field_same k (field i w fs) d =
    ground (arith, eq_iff i k, get_field-remove_field_same k fs d.1, d.0)

pub get_field-remove_field :
    (k j : String) (fs : Fields)
    → str_eq k j ≡ false
    → get_field j (remove_field k fs) ≡ get_field j fs
unfolding remove_field
get_field-remove_field k j end h = refl
get_field-remove_field k j (field i w fs) h =
    ground (arith, eq_iff k j, eq_iff i k, eq_iff i j, get_field-remove_field k j fs h)

pub put_field-IsDict :
    (k : String) (v : Value) (fs : Fields) → IsDict fs → IsDict (put_field k v fs)
put_field-IsDict k v end d = (refl, tt)
put_field-IsDict k v (field i w fs) d = elim (Bool-cases (str_eq i k)) [
  | inl same ↦ rw same d
  | inr other ↦ rw other (
    ground (arith, get_field-put_field k i v fs, eq_iff i k, eq_iff k i, other, d.0),
    put_field-IsDict k v fs d.1,
  )
]

pub remove_field-IsDict : (k : String) (fs : Fields) → IsDict fs → IsDict (remove_field k fs)
unfolding remove_field
remove_field-IsDict k end d = tt
remove_field-IsDict k (field i w fs) d = elim (Bool-cases (str_eq i k)) [
  | inl same ↦ rw (remove_field, same) d.1
  | inr other ↦
      rw (remove_field, other)
        (
          ground (arith, get_field-remove_field k i fs, eq_iff i k, eq_iff k i, other, d.0),
          remove_field-IsDict k fs d.1,
        )
]
