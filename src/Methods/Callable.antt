-- ===== src/Methods/Callable.antt =====
-- Which methods pass the gates of `execute_method`.
use mcp_odoo.Prelude.Result.{ok, >>=-eq-ok, ok_inj}
use mcp_odoo.Prelude.{
  String, ◌≡◌, ◌⊎◌, ◌↔◌, refl, ap, sym, ◌∙◌, str_eq, Bool, Bool-cases, true, false, not, ◌||◌,
  arith, inl, inr,
}
use mathlib.Core.Path.{subst}
use mcp_odoo.Prelude.Dict.{contains}
use mcp_odoo.Prelude.Text.{starts_with}
use mcp_odoo.Json.{Items}
use mcp_odoo.Write.Names.{is_model_name, is_method_name}
use mcp_odoo.Write.Execute.{truthy_env}
use mcp_odoo.SideEffects.{side_effect_method_allowed}
use mcp_odoo.SideEffects.Allowed.{
  HasEntries, is_listed, side_effect_method_allowed-is_listed, HasEntries-allowed,
}
use mcp_odoo.Methods.{
  Server, files_of, is_side_effect_name, classify_method_safety, destructive_methods,
  read_only_methods, is_review_required, is_reviewed, check_method,
}

-- a method that only reads, by its name
abbrev pub is_reading : String → Bool
is_reading method =
    contains read_only_methods method || (starts_with "get_" method || starts_with "_get_" method)

-- The operator let unreviewed methods through, or listed the method in the environment or in the
-- policy file, whose entries were read.
abbrev pub IsReviewed : Server → String → String → Type 0
IsReviewed s model method =
    (vs : Items) × HasEntries (files_of s) vs
    × ((is_listed s.deployment.host (files_of s) vs model method ≡ true)
        ⊎ (truthy_env s.deployment.env "ODOO_MCP_ALLOW_UNKNOWN_METHODS" ≡ true))

-- well-formed names, none of create, write and unlink, and a method that reads or was reviewed
abbrev pub IsCallable : Server → String → String → Type 0
IsCallable s model method =
    (is_model_name model ≡ true)
    × (is_method_name method ≡ true)
    × (contains destructive_methods method ≡ false)
    × ((is_reading method ≡ true) ⊎ IsReviewed s model method)

is_review_required-is_reading :
    (method : String)
    → contains destructive_methods method ≡ false
    → is_review_required (classify_method_safety method).safety ≡ not (is_reading method)
unfolding classify_method_safety
is_review_required-is_reading method h =
    elim (Bool-cases (
      contains read_only_methods method
      || (starts_with "get_" method || starts_with "_get_" method))) [
        | inl reads ↦ rw (classify_method_safety, h, reads) refl
        | inr other ↦
            elim (Bool-cases (str_eq method "message_post" || is_side_effect_name method)) [
              | inl effect ↦ rw (classify_method_safety, h, other, effect) refl
              | inr unclear ↦ rw (classify_method_safety, h, other, unclear) refl
            ]
      ]

either : (a b : Bool) → (a || b) ≡ true → (a ≡ true) ⊎ (b ≡ true)
either a b h = ground arith

any_of : (a b : Bool) → (a ≡ true) ⊎ (b ≡ true) → (a || b) ≡ true
any_of a b h = ground arith

is_reviewed-IsReviewed :
    (s : Server) (model method : String)
    → (is_reviewed s model method ≡ ok true) ↔ IsReviewed s model method
unfolding is_reviewed
is_reviewed-IsReviewed s model method = (
  (λ h.
      let host = s.deployment.host in
      let (allowed, known, rest) =
        >>=-eq-ok (side_effect_method_allowed host (files_of s) model method) _ h in
      let (vs, entries) = HasEntries-allowed host (files_of s) model method allowed known in
      let same : allowed ≡ is_listed host (files_of s) vs model method = ok_inj (
        sym known
        ∙ side_effect_method_allowed-is_listed host (files_of s) model method vs entries) in
      (
        vs,
        entries,
        either _ _ (
            subst (λ b. (b || truthy_env s.deployment.env "ODOO_MCP_ALLOW_UNKNOWN_METHODS") ≡ true)
              same (ok_inj rest)),
      )),
  (λ reviewed.
      let (vs, entries, listed) = reviewed in
      rw
        (side_effect_method_allowed-is_listed s.deployment.host (files_of s) model method vs
          entries)
        (ap ok (any_of _ _ listed))),
)

check_method-tests :
    (s : Server) (model method : String)
    → (check_method s model method ≡ ok tt) ↔ (
        (is_model_name model ≡ true)
        × (is_method_name method ≡ true)
        × (contains destructive_methods method ≡ false)
        × ((is_review_required (classify_method_safety method).safety ≡ false)
            ⊎ (is_reviewed s model method ≡ ok true)))
unfolding check_method
check_method-tests s model method = ground arith

-- The gates of `execute_method` let a method through exactly if its names are well-formed, it is none
-- of create, write and unlink, and either it is a reading method, one of eight or one whose name
-- begins with get_ or _get_, or the policy file does not raise, and the method is listed with its
-- model in the environment or in the file, or unknown methods are allowed.
pub check_method-IsCallable :
    (s : Server) (model method : String)
    → (check_method s model method ≡ ok tt) ↔ IsCallable s model method
check_method-IsCallable s model method = (
  (λ passed.
      let (named, named', kept, way) = (check_method-tests s model method).0 passed in
      (
        named,
        named',
        kept,
        (elim way [
          | inl free ↦ inl (ground (arith, is_review_required-is_reading method kept, free))
          | inr reviewed ↦ inr ((is_reviewed-IsReviewed s model method).0 reviewed)
        ]),
      )),
  (λ callable.
      let (named, named', kept, way) = callable in
      (check_method-tests s model method).1 (
        named,
        named',
        kept,
        (elim way [
          | inl reads ↦ inl (rw (is_review_required-is_reading method kept, reads) refl)
          | inr reviewed ↦ inr ((is_reviewed-IsReviewed s model method).1 reviewed)
        ]),
      )),
)
