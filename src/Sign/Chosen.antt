-- ===== src/Sign/Chosen.antt =====
-- Which fields `safe_fields` lets through.
use mcp_odoo.Prelude.Result.{ok, ok_inj}
use mcp_odoo.Prelude.{
  ℕ, zero, suc, String, ◌≡◌, ◌⊎◌, refl, ◌∙◌, sym, Bool, Bool-cases, true, false, Option, none, some,
  List, [], ◌∷◌, keep, take, any, all, All, str_eq, arith, eq_iff, inl, inr,
}
use mathlib.Core.Path.{subst}
use mcp_odoo.Prelude.Dict.{contains}
use mcp_odoo.Json.{Fields}
use mcp_odoo.SideEffects.{merge_names}
use mcp_odoo.SideEffects.Allowed.{contains-merge_names}
use mcp_odoo.Sign.Lists.{blocked_read_fields, default_fields}
use mcp_odoo.Sign.Policy.{is_known, is_binary, is_kept_back, is_default, choose_fields}

-- a field that Odoo has, no security field, and no binary one
abbrev pub IsShown : Fields → String → Type 0
IsShown metadata name =
    (is_known metadata name ≡ true)
    × (contains blocked_read_fields name ≡ false)
    × ((name ≡ "id") ⊎ (is_binary metadata name ≡ false))

module _ (P : String → Type 0) where
  All-contains :
      (names : List String) → ((name : String) → contains names name ≡ true → P name) → All P names
  All-contains [] h = tt
  All-contains (n ∷ names) h = (
    h n (ground (arith, eq_iff n n)),
    All-contains names (λ name there. h name (ground (arith, there))),
  )

module _ (p : String → Bool) (name : String) where
  contains-all :
      (names : List String) → all p names ≡ true → contains names name ≡ true → p name ≡ true
  contains-all [] h there = cc there
  contains-all (n ∷ names) h there = elim (Bool-cases (str_eq n name)) [
    | inl here ↦ subst (λ m. p m ≡ true) ((eq_iff n name).0 here) (ground (arith, h))
    | inr later ↦ contains-all names (ground (arith, h)) (ground (arith, there))
  ]

  contains-any :
      (names : List String) → any p names ≡ false → contains names name ≡ true → p name ≡ false
  contains-any [] h there = cc there
  contains-any (n ∷ names) h there = elim (Bool-cases (str_eq n name)) [
    | inl here ↦ subst (λ m. p m ≡ false) ((eq_iff n name).0 here) (ground (arith, h))
    | inr later ↦ contains-any names (ground (arith, h)) (ground (arith, there))
  ]

  contains-keep : (names : List String) → contains (keep p names) name ≡ true → p name ≡ true
  contains-keep [] there = cc there
  contains-keep (n ∷ names) there = elim (Bool-cases (p n)) [
    | inr left ↦ contains-keep names (rw left at there)
    | inl kept ↦ elim (Bool-cases (str_eq n name)) [
      | inl here ↦ subst (λ m. p m ≡ true) ((eq_iff n name).0 here) kept
      | inr later ↦ contains-keep names (rw later at (rw kept at there))
    ]
  ]

contains-take :
    (k : ℕ) (names : List String) (name : String)
    → contains (take k names) name ≡ true
    → contains names name ≡ true
contains-take zero names name h = cc h
contains-take (suc k) [] name h = cc h
contains-take (suc k) (n ∷ names) name h = ground (arith, contains-take k names name)

module _ (metadata : Fields) where
  default-IsShown : (name : String) → is_default metadata name ≡ true → IsShown metadata name
  default-IsShown name d = elim (Bool-cases (str_eq name "id")) [
    | inl same ↦
        let id = (eq_iff name "id").0 same in
        (
          ground (arith, same),
          subst (λ n. contains blocked_read_fields n ≡ false) (sym id) refl,
          inl id,
        )
    | inr other ↦ (ground (arith, d), ground (arith, d), inr (ground (arith, d)))
  ]

  pub choose_fields-IsShown :
      (requested : Option (List String)) (names : List String)
      → choose_fields metadata requested ≡ ok names
      → All (IsShown metadata) names
  unfolding choose_fields
  choose_fields-IsShown none names h = subst (All (IsShown metadata)) (ok_inj h) (
      All-contains (IsShown metadata) (take 40 (keep (is_default metadata) default_fields))
        (λ name there. default-IsShown name (
          contains-keep (is_default metadata) name default_fields
            (contains-take 40 (keep (is_default metadata) default_fields) name there))))
  choose_fields-IsShown (some requested) names h =
      elim (Bool-cases (all (is_known metadata) requested)) [
        | inr unknown ↦ cc (rw unknown at h)
        | inl known ↦ elim (Bool-cases (any (is_kept_back metadata) requested)) [
          | inl blocked ↦ cc (rw blocked at (rw known at h))
          | inr free ↦
              let same : merge_names [] requested ≡ names = ok_inj (rw free at (rw known at h)) in
              subst (All (IsShown metadata)) same (
                All-contains (IsShown metadata) (merge_names [] requested) (λ name there.
                  let asked : contains requested name ≡ true =
                    sym (contains-merge_names [] requested name) ∙ there in
                  let open' = contains-any (is_kept_back metadata) name requested free asked in
                  (
                    contains-all (is_known metadata) name requested known asked,
                    ground (arith, open'),
                    inr (ground (arith, open')),
                  )))
        ]
      ]
