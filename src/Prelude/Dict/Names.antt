-- ===== src/Prelude/Dict/Names.antt =====
-- A dict whose keys are all among some names has no more entries than there are names.
use Prim.Native.Nat.{◌≤◌, ◌<◌}
use Prim.Native.String.{String}
use mathlib.Core.Path.{◌≡◌, refl, ◌∙◌}
use mathlib.Core.Logic.{inl, inr}
use mathlib.Core.Bool.{true, not, ◌&&◌}
use mathlib.Core.Option.{none}
use mathlib.Core.List.{List, [], ◌∷◌}
use native.Mathlib.Omega.{arith}
use text.Mathlib.Text.{◌==◌ as str_eq}
use text.Mathlib.TextEquality.{eq_iff}
use mcp_odoo.Prelude.Tests.{Bool-cases}
use mcp_odoo.Prelude.Lists.{length, keep, length-keep-le}
use mcp_odoo.Prelude.Dict.{Dict, contains, get, put, remove}
use mcp_odoo.Prelude.Dict.Entries.{IsKeyed}

abbrev others : String → List String → List String
others k names = keep (λ n. not (str_eq n k)) names

contains-others :
    (k : String) (names : List String) (j : String)
    → contains (others k names) j ≡ (contains names j && not (str_eq j k))
contains-others k [] j = refl
contains-others k (n ∷ names) j =
    ground (arith, contains-others k names j, eq_iff n k, eq_iff n j, eq_iff j k)

length-others_lt :
    (k : String) (names : List String)
    → contains names k ≡ true
    → length (others k names) < length names
length-others_lt k [] h = cc
length-others_lt k (n ∷ names) h =
    ground (arith, length-others_lt k names, length-keep-le (λ n. not (str_eq n k)) names)

module _ {ℓ} {V : Type ℓ} where
  -- every key is one of the names
  abbrev pub HasKeysIn : List String → Dict V → Type 0
  HasKeysIn names [] = Unit
  HasKeysIn names ((k, v) ∷ d) = (contains names k ≡ true) × HasKeysIn names d

  pub put-HasKeysIn :
      (names : List String) (k : String) (v : V) (d : Dict V)
      → contains names k ≡ true
      → HasKeysIn names d
      → HasKeysIn names (put k v d)
  put-HasKeysIn names k v [] c h = (c, tt)
  put-HasKeysIn names k v ((j, w) ∷ d) c h = elim (Bool-cases (str_eq j k)) [
    | inl same ↦ rw same h
    | inr other ↦ rw other (h.0, put-HasKeysIn names k v d c h.1)
  ]

  pub remove-HasKeysIn :
      (names : List String) (k : String) (d : Dict V)
      → HasKeysIn names d
      → HasKeysIn names (remove k d)
  remove-HasKeysIn names k [] h = tt
  remove-HasKeysIn names k ((j, w) ∷ d) h = elim (Bool-cases (str_eq j k)) [
    | inl same ↦ rw same (remove-HasKeysIn names k d h.1)
    | inr other ↦ rw other (h.0, remove-HasKeysIn names k d h.1)
  ]

  without :
      (names : List String) (k : String) (d : Dict V)
      → get k d ≡ none
      → HasKeysIn names d
      → HasKeysIn (others k names) d
  without names k [] e h = tt
  without names k ((j, w) ∷ d) e h = elim (Bool-cases (str_eq j k)) [
    | inl same ↦ cc (rw same at e)
    | inr other ↦
        (contains-others k names j ∙ ground (arith, h.0), without names k d (rw other at e) h.1)
  ]

  pub length-HasKeysIn-le :
      (names : List String) (d : Dict V) → IsKeyed d → HasKeysIn names d → length d ≤ length names
  length-HasKeysIn-le names [] u h = omega arith
  length-HasKeysIn-le names ((k, v) ∷ d) u h = omega (
    arith,
    length-HasKeysIn-le (others k names) d u.1 (without names k d u.0 h.1),
    length-others_lt k names h.0,
  )
