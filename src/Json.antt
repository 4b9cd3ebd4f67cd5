-- ===== src/Json.antt =====
-- JSON values as Python holds them, with Python's truth test and `==`, and the canonical form that
-- src/odoo_mcp/agent_tools.py hashes (`_normalize_numbers`, and the sorted keys of `canonical_json`).
-- A finite float is `float m e`, standing for m / 2 ^ e; infinities and NaN are not modelled.
pub mod Equality
pub mod Canonical
pub mod Entries
pub mod Lookup
use mcp_odoo.Prelude.{
  ℕ, suc, ◌^◌, ◌%◌, String, Bool, true, false, not, ◌&&◌, Option, none, some, ◌==◌, str_eq,
  if◌then◌else◌,
}
use mcp_odoo.Prelude.Int.{ℤ, pos, abs, eq_ℤ, times, quotient}
use Prim.Native.String.{compare}
use Prim.Native.Nat.{Ordering}

mutual
  pub data Value : Type 0 where
    null : Value
    bool : Bool → Value
    int : ℤ → Value
    float : ℤ → ℕ → Value
    text : String → Value
    list : Items → Value
    dict : Fields → Value

  pub data Items : Type 0 where
    nil : Items
    cons : Value → Items → Items

  pub data Fields : Type 0 where
    end : Fields
    field : String → Value → Fields → Fields

-- `d.get(k)`
abbrev pub get_field : String → Fields → Option Value
get_field k end = none
get_field k (field j v fs) = if str_eq j k then some v else get_field k fs

-- `d[k] = v`
abbrev pub put_field : String → Value → Fields → Fields
put_field k v end = field k v end
put_field k v (field j w fs) = if str_eq j k then field j v fs else field j w (put_field k v fs)

abbrev pub count_fields : Fields → ℕ
count_fields end = 0
count_fields (field k v fs) = suc (count_fields fs)

abbrev pub count_items : Items → ℕ
count_items nil = 0
count_items (cons v vs) = suc (count_items vs)

-- `bool(v)`
abbrev pub truthy : Value → Bool
truthy null = false
truthy (bool b) = b
truthy (int a) = not (abs a == 0)
truthy (float m e) = not (abs m == 0)
truthy (text s) = not (str_eq s "")
truthy (list nil) = false
truthy (list (cons v vs)) = true
truthy (dict end) = false
truthy (dict (field k v fs)) = true

-- `v or default`, with None for a missing key
abbrev pub or_else : Option Value → Value → Value
or_else none d = d
or_else (some v) d = if truthy v then v else d

-- a dict's fields; none of any other value
abbrev pub value_fields : Value → Fields
value_fields (dict fs) = fs
value_fields v = end

-- `d.get(k)`, with None for a missing key
abbrev pub get_or_null : String → Fields → Value
get_or_null k fs = elim (get_field k fs) [ none ↦ null | some v ↦ v ]

-- `float.is_integer`
abbrev pub is_integral : ℤ → ℕ → Bool
is_integral m e = abs m % 2 ^ e == 0

-- `_normalize_numbers`: integral floats become ints
unfoldable mutual
  pub normalize : Value → Value
  normalize null = null
  normalize (bool b) = bool b
  normalize (int a) = int a
  normalize (float m e) = if is_integral m e then int (quotient m (2 ^ e)) else float m e
  normalize (text s) = text s
  normalize (list vs) = list (normalize_items vs)
  normalize (dict fs) = dict (normalize_fields fs)

  pub normalize_items : Items → Items
  normalize_items nil = nil
  normalize_items (cons v vs) = cons (normalize v) (normalize_items vs)

  pub normalize_fields : Fields → Fields
  normalize_fields end = end
  normalize_fields (field k v fs) = field k (normalize v) (normalize_fields fs)

-- a field put in its place in an ordered dict; texts compare by code points, as in Python
unfoldable pub insert_field : String → Value → Fields → Fields
insert_field k v end = field k v end
insert_field k v (field j w fs) = elim (compare k j) [
  | Ordering.gt ↦ field j w (insert_field k v fs)
  | _ ↦ field k v (field j w fs)
]

-- `sort_keys=True`, at every depth
unfoldable mutual
  pub sort_keys : Value → Value
  sort_keys null = null
  sort_keys (bool b) = bool b
  sort_keys (int a) = int a
  sort_keys (float m e) = float m e
  sort_keys (text s) = text s
  sort_keys (list vs) = list (sort_items vs)
  sort_keys (dict fs) = dict (sort_fields fs)

  pub sort_items : Items → Items
  sort_items nil = nil
  sort_items (cons v vs) = cons (sort_keys v) (sort_items vs)

  pub sort_fields : Fields → Fields
  sort_fields end = end
  sort_fields (field k v fs) = insert_field k (sort_keys v) (sort_fields fs)

-- `canonical_json`, up to the rendering of the ordered, normalised value as text
unfoldable pub canonical : Value → Value
canonical v = sort_keys (normalize v)

-- m / 2 ^ e against a value: True is 1 and False is 0, as in Python
abbrev eq_number : ℤ → ℕ → Value → Bool
eq_number m e (bool true) = eq_ℤ m (times (pos 1) (2 ^ e))
eq_number m e (bool false) = eq_ℤ m (pos 0)
eq_number m e (int a) = eq_ℤ m (times a (2 ^ e))
eq_number m e (float n f) = eq_ℤ (times m (2 ^ f)) (times n (2 ^ e))
eq_number m e _ = false

-- Python's `==`; dicts compare without regard to the order of their keys
unfoldable mutual
  unfolding times

  pub eq_value : Value → Value → Bool
  eq_value null w = elim w [ null ↦ true | _ ↦ false ]
  eq_value (bool b) w = eq_number (if b then pos 1 else pos 0) 0 w
  eq_value (int a) w = eq_number a 0 w
  eq_value (float m e) w = eq_number m e w
  eq_value (text s) w = elim w [ text t ↦ str_eq s t | _ ↦ false ]
  eq_value (list vs) w = elim w [ list ws ↦ eq_items vs ws | _ ↦ false ]
  eq_value (dict fs) w = elim w [
    | dict gs ↦ (count_fields fs == count_fields gs) && sub_fields fs gs
    | _ ↦ false
  ]

  pub eq_items : Items → Items → Bool
  eq_items nil ws = elim ws [ nil ↦ true | _ ↦ false ]
  eq_items (cons v vs) ws = elim ws [ nil ↦ false | cons w ws' ↦ eq_value v w && eq_items vs ws' ]

  pub sub_fields : Fields → Fields → Bool
  sub_fields end gs = true
  sub_fields (field k v fs) gs =
      (elim (get_field k gs) [ none ↦ false | some w ↦ eq_value v w ]) && sub_fields fs gs
