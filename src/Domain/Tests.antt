-- ===== src/Domain/Tests.antt =====
-- A domain built from three conditions, and the theorems of the builder at concrete inputs.
use mcp_odoo.Prelude.{String, ◌≡◌, refl, Bool, none, some, List, [], ◌∷◌, All, any, str_eq}
use mcp_odoo.Prelude.Text.{strip, lower}
use mcp_odoo.Json.{Value, text, int, list, nil, cons, Fields, end, field}
use mcp_odoo.Prelude.Int.{pos}
use mcp_odoo.Write.Host.{Host, str}
use mcp_odoo.Write.Approvals.{text_at}
use mcp_odoo.Domain.{
  Condition, or_sign, leaf, invalid_operator, is_unknown, check_condition, check_conditions,
  domain_of, build_domain_report,
}
use mcp_odoo.Domain.Meaning.{matches, matches-build_domain_report}
use mcp_odoo.Domain.Complete.{IsSafe, build_domain_report-IsSafe}

program : Unit {0}
unfolding strip lower str text_at is_unknown check_condition check_conditions domain_of
    build_domain_report
program = tt

abbrev host : Host
host = record { digest = λ _. ""; render = λ _. "?" }

abbrev condition : String → String → Value → Fields
condition name operator value =
    field "field" (text name) (field "operator" (text operator) (field "value" value end))

abbrev conditions : List Fields
conditions =
    condition "name" "ilike" (text "azure")
    ∷ condition " state" "in" (list (cons (text "draft") nil))
    ∷ condition "id" ">" (int (pos 7))
    ∷ []

abbrev kept : List Condition
kept =
    record { name = "name"; operator = "ilike"; value = text "azure" }
    ∷ record { name = "state"; operator = "in"; value = list (cons (text "draft") nil) }
    ∷ record { name = "id"; operator = ">"; value = int (pos 7) }
    ∷ []

built :
    (build_domain_report host conditions " OR" none).domain
    ≡ or_sign
      ∷ or_sign
      ∷ leaf (record { name = "name"; operator = "ilike"; value = text "azure" })
      ∷ leaf (record { name = "state"; operator = "in"; value = list (cons (text "draft") nil) })
      ∷ leaf (record { name = "id"; operator = ">"; value = int (pos 7) })
      ∷ []
unfolding program
built = refl

rejected :
    (build_domain_report host (condition "name" "=?" (text "x") ∷ []) "and" none).issues
    ≡ invalid_operator "=?" ∷ []
unfolding program
rejected = refl

abbrev on_name : Condition → Bool
on_name c = str_eq c.name "name"

matches-build_domain_report_example :
    matches on_name (build_domain_report host conditions "or" none).domain ≡ some (any on_name kept)
unfolding program
matches-build_domain_report_example = matches-build_domain_report on_name host conditions "or" none

build_domain_report-IsSafe_example :
    All (IsSafe none) (build_domain_report host conditions "or" none).conditions
build_domain_report-IsSafe_example = build_domain_report-IsSafe host none conditions "or"
