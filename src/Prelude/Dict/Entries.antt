-- ===== src/Prelude/Dict/Entries.antt =====
-- What holds of every entry of a dict, how many entries there are, and which keys they have.
use Prim.Native.Nat.{suc, ◌≤◌, ◌<◌}
use Prim.Native.String.{String}
use mathlib.Core.Path.{◌≡◌, refl, ◌∙◌, subst}
use mathlib.Core.Logic.{inl, inr}
use mathlib.Core.Bool.{true}
use mathlib.Core.Option.{none, some}
use mathlib.Core.List.{[], ◌∷◌}
use native.Mathlib.Omega.{arith}
use text.Mathlib.Text.{◌==◌ as str_eq}
use text.Mathlib.TextEquality.{eq_iff}
use mcp_odoo.Prelude.Tests.{Bool-cases, some_inj}
use mcp_odoo.Prelude.Lists.{length}
use mcp_odoo.Prelude.Dict.{
  Dict, contains, keys, get, put, remove, get-put, get-remove, length-remove-le,
}

module _ {ℓ} {V : Type ℓ} where
  -- the property holds of every value
  abbrev pub Each : (V → Type 0) → Dict V → Type 0
  Each P [] = Unit
  Each P ((k, v) ∷ d) = P v × Each P d

  -- no key stands twice
  abbrev pub IsKeyed : Dict V → Type ℓ
  IsKeyed [] = Unit
  IsKeyed ((k, v) ∷ d) = (get k d ≡ none) × IsKeyed d

  module _ (P : V → Type 0) where
    pub Each-put : (k : String) (v : V) (d : Dict V) → P v → Each P d → Each P (put k v d)
    Each-put k v [] p e = (p, tt)
    Each-put k v ((j, w) ∷ d) p e = elim (Bool-cases (str_eq j k)) [
      | inl same ↦ rw same (p, e.1)
      | inr other ↦ rw other (e.0, Each-put k v d p e.1)
    ]

    pub Each-remove : (k : String) (d : Dict V) → Each P d → Each P (remove k d)
    Each-remove k [] e = tt
    Each-remove k ((j, w) ∷ d) e = elim (Bool-cases (str_eq j k)) [
      | inl same ↦ rw same (Each-remove k d e.1)
      | inr other ↦ rw other (e.0, Each-remove k d e.1)
    ]

    pub Each-get : (k : String) (v : V) (d : Dict V) → Each P d → get k d ≡ some v → P v
    Each-get k v [] e h = cc
    Each-get k v ((j, w) ∷ d) e h = elim (Bool-cases (str_eq j k)) [
      | inl same ↦ subst P (some_inj (rw same at h)) e.0
      | inr other ↦ Each-get k v d e.1 (rw other at h)
    ]

  pub length-put-le : (k : String) (v : V) (d : Dict V) → length (put k v d) ≤ suc (length d)
  length-put-le k v [] = omega arith
  length-put-le k v ((j, w) ∷ d) = ground (arith, length-put-le k v d)

  pub length-remove-lt :
      (k : String) (d : Dict V) → contains (keys d) k ≡ true → length (remove k d) < length d
  length-remove-lt k [] h = cc
  length-remove-lt k ((j, w) ∷ d) h = ground (arith, length-remove-lt k d, length-remove-le k d)

  -- writing a key that is there adds no entry
  pub length-put_known :
      (k : String) (v w : V) (d : Dict V) → get k d ≡ some w → length (put k v d) ≡ length d
  length-put_known k v w [] h = cc
  length-put_known k v w ((j, u) ∷ d) h = ground (arith, length-put_known k v w d)

  pub put-IsKeyed : (k : String) (v : V) (d : Dict V) → IsKeyed d → IsKeyed (put k v d)
  put-IsKeyed k v [] u = (refl, tt)
  put-IsKeyed k v ((j, w) ∷ d) u = elim (Bool-cases (str_eq j k)) [
    | inl same ↦ rw same u
    | inr other ↦
        rw other
          (get-put k j v d ∙ ground (arith, eq_iff j k, eq_iff k j, u.0), put-IsKeyed k v d u.1)
  ]

  pub remove-IsKeyed : (k : String) (d : Dict V) → IsKeyed d → IsKeyed (remove k d)
  remove-IsKeyed k [] u = tt
  remove-IsKeyed k ((j, w) ∷ d) u = elim (Bool-cases (str_eq j k)) [
    | inl same ↦ rw same (remove-IsKeyed k d u.1)
    | inr other ↦ rw other (get-remove k j d ∙ ground (arith, u.0), remove-IsKeyed k d u.1)
  ]
