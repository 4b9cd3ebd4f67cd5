-- ===== src/Domain.antt =====
-- `build_domain_report` of src/odoo_mcp/agent_tools.py: a search domain from structured conditions.
pub mod Meaning
pub mod Complete
mod Tests
use mcp_odoo.Prelude.{
  ℕ, zero, suc, ◌+◌, String, Bool, true, false, not, ◌&&◌, ◌||◌, Option, none, some, List, [], ◌∷◌,
  ◌++◌, str_eq, if◌then◌else◌, length,
}
use mcp_odoo.Prelude.Dict.{contains}
use mcp_odoo.Prelude.Result.{Result, ok, err}
use mcp_odoo.Prelude.Text.{strip, lower}
use mcp_odoo.Json.{Value, list, Fields, get_field, get_or_null}
use mcp_odoo.Write.Approvals.{text_at}
use mcp_odoo.Write.Host.{Host}

pub data DomainIssue : Type 0 where
  missing_field : ℕ → DomainIssue
  invalid_operator unknown_field operator_requires_list : String → DomainIssue
  invalid_logical_operator : DomainIssue

-- `[field, operator, value]`
pub record Condition : Type 0 where
  pub name : String
  pub operator : String
  pub value : Value

-- an element of a domain
pub data Term : Type 0 where
  or_sign : Term
  leaf : Condition → Term

-- `SAFE_DOMAIN_OPERATORS`
abbrev pub safe_domain_operators : List String
safe_domain_operators =
    "=" ∷ "!=" ∷ ">" ∷ ">=" ∷ "<" ∷ "<=" ∷ "in" ∷ "not in" ∷ "like" ∷ "not like" ∷ "ilike"
    ∷ "not ilike" ∷ "=like" ∷ "=ilike" ∷ "child_of" ∷ "parent_of" ∷ []

-- `fields_metadata is not None and field not in fields_metadata`
unfoldable pub is_unknown : Option Fields → String → Bool
is_unknown none name = false
is_unknown (some metadata) name = elim (get_field name metadata) [ none ↦ true | some _ ↦ false ]

abbrev pub is_list : Value → Bool
is_list (list vs) = true
is_list _ = false

-- one round of the loop over the conditions
unfoldable pub check_condition : Host → Option Fields → ℕ → Fields → Result DomainIssue Condition
check_condition host metadata index condition =
    let name = strip (text_at host "field" condition) in
    let operator = strip (text_at host "operator" condition) in
    let value = get_or_null "value" condition in
    if str_eq name ""
    then err (missing_field index)
    else if not (contains safe_domain_operators operator)
    then err (invalid_operator operator)
    else if is_unknown metadata name
    then err (unknown_field name)
    else if (str_eq operator "in" || str_eq operator "not in") && not (is_list value)
    then err (operator_requires_list operator)
    else ok (record { name = name; operator = operator; value = value })

-- the loop: the issues, and the normalised conditions
unfoldable pub check_conditions :
    Host → Option Fields → ℕ → List Fields → List DomainIssue × List Condition
check_conditions host metadata index [] = ([], [])
check_conditions host metadata index (condition ∷ conditions) =
    let (issues, kept) = check_conditions host metadata (index + 1) conditions in
    elim (check_condition host metadata index condition) [
      | err issue ↦ (issue ∷ issues, kept)
      | ok c ↦ (issues, c ∷ kept)
    ]

abbrev pub leaves : List Condition → List Term
leaves [] = []
leaves (c ∷ cs) = leaf c ∷ leaves cs

-- `["|"] * n`
abbrev pub or_signs : ℕ → List Term
or_signs zero = []
or_signs (suc n) = or_sign ∷ or_signs n

-- the domain of the normalised conditions
unfoldable pub domain_of : String → List Condition → List Term
domain_of operator_name [] = []
domain_of operator_name (c ∷ cs) =
    if str_eq operator_name "or" then or_signs (length cs) ++ leaves (c ∷ cs) else leaves (c ∷ cs)

pub record DomainReport : Type 0 where
  pub success : Bool
  pub domain : List Term
  pub conditions : List Condition
  pub issues : List DomainIssue

abbrev pub no_issues : List DomainIssue → Bool
no_issues [] = true
no_issues (i ∷ is) = false

-- `build_domain_report`; each of its issues is an error
unfoldable pub build_domain_report : Host → List Fields → String → Option Fields → DomainReport
build_domain_report host conditions logical_operator metadata =
    let (issues, kept) = check_conditions host metadata 0 conditions in
    let operator_name = lower (strip logical_operator) in
    let all_issues =
      if str_eq operator_name "and" || str_eq operator_name "or"
      then issues
      else issues ++ invalid_logical_operator ∷ [] in
    record {
      success = no_issues all_issues;
      domain = domain_of operator_name kept;
      conditions = kept;
      issues = all_issues;
    }
