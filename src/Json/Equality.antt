-- ===== src/Json/Equality.antt =====
-- Python's `==` on JSON values (`eq_value`) holds of a value and itself, where dicts have no key twice.
use mcp_odoo.Prelude.{
  ℕ, suc, ◌*◌, ◌^◌, String, ◌≡◌, refl, true, false, none, some, arith, eq_iff, eq_refl, ◌==◌,
}
use mcp_odoo.Prelude.Int.{ℤ, pos, negsuc, eq_ℤ, times}
use mcp_odoo.Json.{
  Value, null, bool, int, float, text, list, dict, Items, nil, cons, Fields, end, field, get_field,
  count_fields, eq_value, eq_items, sub_fields,
}

-- no dict inside has a key twice
abbrev mutual
  pub IsDistinct : Value → Type 0
  IsDistinct (list vs) = AreDistinct vs
  IsDistinct (dict fs) = HaveDistinct fs
  IsDistinct _ = Unit

  pub AreDistinct : Items → Type 0
  AreDistinct nil = Unit
  AreDistinct (cons v vs) = IsDistinct v × AreDistinct vs

  pub HaveDistinct : Fields → Type 0
  HaveDistinct end = Unit
  HaveDistinct (field k v fs) = (get_field k fs ≡ none) × IsDistinct v × HaveDistinct fs

==_refl : (n : ℕ) → (n == n) ≡ true
==_refl n = ground arith

pub eq_ℤ_refl : (a : ℤ) → eq_ℤ a a ≡ true
eq_ℤ_refl (pos n) = ==_refl n
eq_ℤ_refl (negsuc n) = ==_refl n

times-one : (a : ℤ) → eq_ℤ a (times a 1) ≡ true
unfolding times
times-one (pos n) = ground arith
times-one (negsuc n) = let e : suc n * 1 ≡ suc n = omega arith in rw e (==_refl n)

-- every entry of `fs` is found in `gs`
abbrev Within : Fields → Fields → Type 0
Within fs gs = (k : String) (v : Value) → get_field k fs ≡ some v → get_field k gs ≡ some v

Within-tail :
    (j : String) (w : Value) (fs gs : Fields)
    → get_field j fs ≡ none
    → Within (field j w fs) gs
    → Within fs gs
Within-tail j w fs gs absent h k v found = h k v (ground (arith, eq_iff j k, absent, found))

mutual
  unfolding eq_value

  value_refl : (v : Value) → IsDistinct v → eq_value v v ≡ true
  value_refl null d = refl
  value_refl (bool true) d = refl
  value_refl (bool false) d = refl
  value_refl (int a) d = times-one a
  value_refl (float m e) d = eq_ℤ_refl (times m (2 ^ e))
  value_refl (text s) d = eq_refl s
  value_refl (list vs) d = items_refl vs d
  value_refl (dict fs) d =
      ground (arith, fields_refl fs fs d (λ k v found. found), ==_refl (count_fields fs))

  items_refl : (vs : Items) → AreDistinct vs → eq_items vs vs ≡ true
  items_refl nil d = refl
  items_refl (cons v vs) d = ground (arith, value_refl v d.0, items_refl vs d.1)

  fields_refl : (fs gs : Fields) → HaveDistinct fs → Within fs gs → sub_fields fs gs ≡ true
  fields_refl end gs d h = refl
  fields_refl (field k v fs) gs d h = ground (
    arith,
    h k v (ground (arith, eq_iff k k)),
    value_refl v d.1,
    fields_refl fs gs d.2 (Within-tail k v fs gs d.0 h),
  )

pub eq_value_refl : (v : Value) → IsDistinct v → eq_value v v ≡ true
eq_value_refl v d = value_refl v d
