-- ===== src/FieldPolicy/Tests.antt =====
-- A policy parsed and applied, and the theorems of the field policy at concrete inputs.
use mcp_odoo.Prelude.Result.{err, ok}
use mcp_odoo.Prelude.{String, ◌≡◌, ◌↔◌, refl, true, none, some, [], ◌∷◌, All, map}
use mcp_odoo.Prelude.Dict
use mcp_odoo.Prelude.Dict.{Dict, contains}
use mcp_odoo.Prelude.Text.{strip}
use mcp_odoo.Json.{text, list, dict, nil, cons, Fields, end, field}
use mcp_odoo.FieldPolicy.{
  deny, allow, FieldPolicy, models_of, merge_both, merge_rule, effective, filter_fields, split_by,
  redact_record, with_names, redact_records, redact_each, sorted_set, insert_equal, sorted,
  check_aggregate,
}
use mcp_odoo.FieldPolicy.Rules.{IsPermitted}
use mcp_odoo.FieldPolicy.Redaction.{
  occurs, filter_fields-IsPermitted, redact_record-IsPermitted, redact_records-IsPermitted,
  check_aggregate-IsPermitted,
}
use mcp_odoo.FieldPolicy.Parse.{
  needs_exactly_one, parse_field_policy, parse_instances, parse_models, parse_rule, choose_rule,
  names_rule, texts_of, stripped,
}
use mcp_odoo.FieldPolicy.Parse.Shape.{IsDescribed, rule_spec, parse_field_policy-Describes}

program : Unit {0}
unfolding strip models_of merge_both merge_rule effective filter_fields split_by redact_record
    with_names redact_records redact_each sorted_set insert_equal sorted check_aggregate
    parse_field_policy parse_instances parse_models parse_rule choose_rule names_rule texts_of
    stripped
program = tt

-- the example of the module's documentation
abbrev acl : Fields
acl =
    field "default"
      (dict (
        field "res.partner"
          (dict (field "deny" (list (cons (text " credit_limit") (cons (text "comment") nil))) end))
          (field "*" (dict (field "deny" (list (cons (text "message_ids") nil)) end)) end)))
      (field "subsidiary"
        (dict (
          field "hr.employee"
            (dict (field "allow" (list (cons (text "name") (cons (text "work_email") nil))) end))
            end))
        end)

abbrev policy : FieldPolicy
policy =
    (
      "default",
      ("res.partner", record { mode = deny; fields = "credit_limit" ∷ "comment" ∷ [] })
          ∷ ("*", record { mode = deny; fields = "message_ids" ∷ [] })
          ∷ [],
    )
    ∷ (
      "subsidiary",
      ("hr.employee", record { mode = allow; fields = "name" ∷ "work_email" ∷ [] }) ∷ [],
    )
    ∷ []

parsed : parse_field_policy (field "field_acl" (dict acl) end) ≡ ok policy
unfolding program
parsed = refl

refused :
    parse_field_policy
      (field "field_acl" (dict (field "a" (dict (field "m" (dict end) end)) end)) end)
    ≡ err (needs_exactly_one "a" "m")
unfolding program
refused = refl

abbrev partner : Dict String
partner = ("id", "7") ∷ ("name", "Ada") ∷ ("comment", "secret") ∷ ("message_ids", "9") ∷ []

redacted :
    (redact_records policy "default" "res.partner" (partner ∷ partner ∷ []) ≡ (
      (("id", "7") ∷ ("name", "Ada") ∷ []) ∷ (("id", "7") ∷ ("name", "Ada") ∷ []) ∷ [],
      "comment" ∷ "message_ids" ∷ [],
    ))
    × (check_aggregate policy "subsidiary" "hr.employee" ("name" ∷ "wage" ∷ [])
        ≡ some ("wage" ∷ []))
unfolding program
redacted = (refl, refl)

filter_fields-IsPermitted_example :
    ((contains (filter_fields policy "subsidiary" "hr.employee" ("name" ∷ "wage" ∷ [])).0 "wage"
        ≡ true)
      ↔ ((contains ("name" ∷ "wage" ∷ []) "wage" ≡ true)
          × IsPermitted policy "subsidiary" "hr.employee" "wage"))
    × ((contains (filter_fields policy "subsidiary" "hr.employee" ("name" ∷ "wage" ∷ [])).1 "wage"
          ≡ true)
        ↔ ((contains ("name" ∷ "wage" ∷ []) "wage" ≡ true)
            × (¬ IsPermitted policy "subsidiary" "hr.employee" "wage")))
filter_fields-IsPermitted_example =
    filter_fields-IsPermitted policy "subsidiary" "hr.employee" ("name" ∷ "wage" ∷ []) "wage"

redact_record-IsPermitted_example :
    (Dict.get "name" (redact_record policy "default" "res.partner" partner).0 ≡ some "Azure")
    ↔ ((Dict.get "name" partner ≡ some "Azure") × IsPermitted policy "default" "res.partner" "name")
redact_record-IsPermitted_example =
    redact_record-IsPermitted policy "default" "res.partner" partner "name" "Azure"

redact_records-IsPermitted_example :
    ((redact_records policy "default" "res.partner" (partner ∷ [])).0
      ≡ map (λ row. (redact_record policy "default" "res.partner" row).0) (partner ∷ []))
    × ((occurs (redact_records policy "default" "res.partner" (partner ∷ [])).0 "comment" ≡ true)
        ↔ ((occurs (partner ∷ []) "comment" ≡ true)
            × IsPermitted policy "default" "res.partner" "comment"))
    × ((contains (redact_records policy "default" "res.partner" (partner ∷ [])).1 "comment" ≡ true)
        ↔ ((occurs (partner ∷ []) "comment" ≡ true)
            × (¬ IsPermitted policy "default" "res.partner" "comment")))
redact_records-IsPermitted_example =
    redact_records-IsPermitted policy "default" "res.partner" (partner ∷ []) "comment"

check_aggregate-IsPermitted_example :
    (check_aggregate policy "subsidiary" "hr.employee" ("name" ∷ "wage" ∷ []) ≡ none)
    ↔ All (IsPermitted policy "subsidiary" "hr.employee") ("name" ∷ "wage" ∷ [])
check_aggregate-IsPermitted_example =
    check_aggregate-IsPermitted policy "subsidiary" "hr.employee" ("name" ∷ "wage" ∷ [])

parse_field_policy-Describes_example :
    IsDescribed
      (rule_spec acl "subsidiary" "hr.employee")
      (Dict.get "hr.employee" (models_of policy "subsidiary"))
unfolding program
parse_field_policy-Describes_example =
    parse_field_policy-Describes (field "field_acl" (dict acl) end) acl policy parsed refl
      (refl, (refl, tt)) ((refl, (refl, tt)), ((refl, tt), tt)) "subsidiary" "hr.employee"
