-- ===== src/Domain/Complete.antt =====
-- A domain that is reported as a success leaves no condition out, and holds only checked ones.
use mathlib.Core.Path.{subst}
use mcp_odoo.Prelude.{
  ℕ, ◌+◌, String, ◌≡◌, refl, ◌⊎◌, inl, inr, Bool, true, false, not, ◌&&◌, ◌||◌, Option, List, [],
  ◌∷◌, ◌++◌, arith, str_eq, if◌then◌else◌, length, All,
}
use mcp_odoo.Prelude.Dict.{contains}
use mcp_odoo.Prelude.Result.{Result, ok, err}
use mcp_odoo.Prelude.Text.{strip, lower}
use mcp_odoo.Json.{Fields, get_or_null}
use mcp_odoo.Write.Host.{Host}
use mcp_odoo.Write.Approvals.{text_at}
use mcp_odoo.Domain.{
  DomainIssue, missing_field, invalid_operator, unknown_field, operator_requires_list,
  invalid_logical_operator, Condition, safe_domain_operators, is_unknown, is_list, check_condition,
  check_conditions, no_issues, build_domain_report,
}

-- a condition on a field that the model has, if its fields are known, with an allowed operator,
-- which has a list where it needs one
pub record IsSafe (metadata : Option Fields) (c : Condition) : Type 0 where
  pub named : str_eq c.name "" ≡ false
  pub allowed : contains safe_domain_operators c.operator ≡ true
  pub known : is_unknown metadata c.name ≡ false
  pub listed :
      ((str_eq c.operator "in" || str_eq c.operator "not in") ≡ false) ⊎ (is_list c.value ≡ true)

no_issues-length :
    (issues : List DomainIssue) (valid : Bool)
    → no_issues (if valid then issues else issues ++ invalid_logical_operator ∷ []) ≡ true
    → length issues ≡ 0
no_issues-length [] valid h = refl
no_issues-length (i ∷ is) true h = cc
no_issues-length (i ∷ is) false h = cc

-- what follows from each test that was passed
passed :
    (a b c d l : Bool) (i j k m : DomainIssue) (x y : Condition)
    → (if a
        then err i
        else if not b
        then err j
        else if c
        then err k
        else if d && not l
        then err m
        else ok x)
      ≡ ok y
    → (a ≡ false) × (b ≡ true) × (c ≡ false) × ((d ≡ false) ⊎ (l ≡ true)) × (x ≡ y)
passed true b c d l i j k m x y h = cc
passed false false c d l i j k m x y h = cc
passed false true true d l i j k m x y h = cc
passed false true false true false i j k m x y h = cc
passed false true false true true i j k m x y h = (refl, refl, refl, inr refl, cc)
passed false true false false l i j k m x y h = (refl, refl, refl, inl refl, cc)

module _ (host : Host) (metadata : Option Fields) where
  check_condition-IsSafe :
      (index : ℕ) (condition : Fields) (c : Condition)
      → check_condition host metadata index condition ≡ ok c
      → IsSafe metadata c
  unfolding check_condition
  check_condition-IsSafe index condition c h =
      let name = strip (text_at host "field" condition) in
      let operator = strip (text_at host "operator" condition) in
      let value = get_or_null "value" condition in
      let (named, allowed, known, listed, same) =
        passed (str_eq name "") (contains safe_domain_operators operator) (is_unknown metadata name)
          (str_eq operator "in" || str_eq operator "not in") (is_list value) (missing_field index)
          (invalid_operator operator) (unknown_field name) (operator_requires_list operator)
          (record { name = name; operator = operator; value = value }) c h in
      subst (IsSafe metadata) same
        (record { named = named; allowed = allowed; known = known; listed = listed })

  check_conditions-IsSafe :
      (index : ℕ) (conditions : List Fields)
      → All (IsSafe metadata) (check_conditions host metadata index conditions).1
  unfolding check_conditions
  check_conditions-IsSafe index [] = tt
  check_conditions-IsSafe index (condition ∷ conditions) =
      go (check_condition host metadata index condition) refl
        (check_conditions-IsSafe (index + 1) conditions)
    where
      go :
          (checked : Result DomainIssue Condition)
          → check_condition host metadata index condition ≡ checked
          → All (IsSafe metadata) (check_conditions host metadata (index + 1) conditions).1
          → All
              (IsSafe metadata)
              (elim checked as (λ _. List DomainIssue × List Condition) [
                | err issue ↦ (
                  issue ∷ (check_conditions host metadata (index + 1) conditions).0,
                  (check_conditions host metadata (index + 1) conditions).1,
                )
                | ok c ↦ (
                  (check_conditions host metadata (index + 1) conditions).0,
                  c ∷ (check_conditions host metadata (index + 1) conditions).1,
                )
              ]).1
      go (err issue) e rest = rest
      go (ok c) e rest = (check_condition-IsSafe index condition c e, rest)

  length-check_conditions :
      (index : ℕ) (conditions : List Fields)
      → length (check_conditions host metadata index conditions).0
          + length (check_conditions host metadata index conditions).1
        ≡ length conditions
  unfolding check_conditions
  length-check_conditions index [] = omega arith
  length-check_conditions index (condition ∷ conditions) =
      ground (arith, length-check_conditions (index + 1) conditions)

  -- Each condition of a report, whether it is a success or not, has a name, which the model has if its
  -- fields are known, an allowed operator, and a list where the operator needs one.
  pub build_domain_report-IsSafe :
      (conditions : List Fields) (operator : String)
      → All (IsSafe metadata) (build_domain_report host conditions operator metadata).conditions
  unfolding build_domain_report
  build_domain_report-IsSafe conditions operator = check_conditions-IsSafe 0 conditions

  -- A report of success keeps every condition that was given.
  pub length-build_domain_report :
      (conditions : List Fields) (operator : String)
      → (build_domain_report host conditions operator metadata).success ≡ true
      → length (build_domain_report host conditions operator metadata).conditions
        ≡ length conditions
  unfolding build_domain_report
  length-build_domain_report conditions operator h = omega (
    arith,
    length-check_conditions 0 conditions,
    no_issues-length (check_conditions host metadata 0 conditions).0
        (str_eq (lower (strip operator)) "and" || str_eq (lower (strip operator)) "or") h,
  )
