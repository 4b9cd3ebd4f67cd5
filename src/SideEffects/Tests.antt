-- ===== src/SideEffects/Tests.antt =====
-- The allowlist on a concrete environment and policy file.
use mcp_odoo.Prelude.{
  String, ◌≡◌, refl, true, false, Option, none, some, [], ◌∷◌, if◌then◌else◌, str_eq,
}
use mcp_odoo.Prelude.Result.{ok, err}
use mcp_odoo.Prelude.Text.{split_on, strip}
use mcp_odoo.Json.{Value, text, list, dict, Items, nil, cons, end, field}
use mcp_odoo.Write.Host.{Host, str}
use mcp_odoo.Write.Approvals.{text_at}
use mcp_odoo.FieldPolicy.Parse.{Files, policy_file_path}
use mcp_odoo.SideEffects.{
  attribute_error, read_error, stripped_names, entry_name, entry_names, iterated,
  load_side_effect_policy, merge_names, allowed_side_effect_methods, side_effect_method_allowed,
}
use mcp_odoo.SideEffects.Allowed.{readable, is_listed, side_effect_method_allowed-is_listed}

program : Unit {0}
unfolding strip str text_at policy_file_path split_on stripped_names entry_name entry_names iterated
    load_side_effect_policy merge_names allowed_side_effect_methods side_effect_method_allowed
program = tt

abbrev host : Host
host = record { digest = λ _. ""; render = λ _. "?" }

abbrev env : String → Option String
env name =
    if str_eq name "ODOO_MCP_ALLOWED_SIDE_EFFECT_METHODS"
    then some "sale.order.action_confirm, ,crm.lead.action_set_won"
    else none

abbrev policy : Value
policy = dict (
    field "allowed_side_effect_methods"
      (list (
        cons (dict (field "method" (text " account.move.action_post") end))
          (cons (text "sale.order.action_confirm") nil)))
      end)

abbrev files : Files
files = record { env = env; exists = λ _. true; decode = λ _. some policy; escapes = λ _. false }

-- the file holds a list where an object is wanted
abbrev list_file : Files
list_file = record {
  env = env;
  exists = λ _. true;
  decode = λ _. some (list nil);
  escapes = λ _. false;
}

allowed :
    allowed_side_effect_methods host files
    ≡ ok ("sale.order.action_confirm" ∷ "crm.lead.action_set_won" ∷ "account.move.action_post" ∷ [])
unfolding program
allowed = refl

raised_for_list : allowed_side_effect_methods host list_file ≡ err attribute_error
unfolding program
raised_for_list = refl

loaded :
    load_side_effect_policy host files
    ≡ ok ("account.move.action_post" ∷ "sale.order.action_confirm" ∷ [])
unfolding program
loaded = refl

abbrev entries : Items
entries =
    cons (dict (field "method" (text " account.move.action_post") end))
      (cons (text "sale.order.action_confirm") nil)

raised_for_bytes :
    allowed_side_effect_methods host (record files { escapes = λ _. true }) ≡ err read_error
unfolding program
raised_for_bytes = refl

side_effect_method_allowed-is_listed_example :
    side_effect_method_allowed host files "account.move" "action_post"
    ≡ ok (is_listed host files entries "account.move" "action_post")
unfolding program
side_effect_method_allowed-is_listed_example =
    side_effect_method_allowed-is_listed host files "account.move" "action_post" entries (
      readable "odoo_mcp_policy.json" (field "allowed_side_effect_methods" (list entries) end)
        entries refl refl refl refl)
