-- ===== src/Methods/Tests.antt =====
-- Runs of `execute_method`, and its theorems at concrete inputs.
use mcp_odoo.Prelude.Result.{ok, err}
use mcp_odoo.Prelude.{
  ◌≡◌, ◌⊎◌, ◌↔◌, refl, false, true, none, some, [], ◌∷◌, ◌++◌, str_eq, if◌then◌else◌,
}
use mcp_odoo.Prelude.Text.{after_prefix, starts_with, split_on, strip, lower}
use mcp_odoo.Json.{Value, null, text, list, Items, nil, cons, end}
use mcp_odoo.Write.Host.{Call, returned, raised}
use mcp_odoo.Write.Names.{is_model_name, is_method_name}
use mcp_odoo.Write.Execute.{truthy_env}
use mcp_odoo.FieldPolicy.Parse.{policy_file_path}
use mcp_odoo.SideEffects.{
  stripped_names, load_side_effect_policy, merge_names, allowed_side_effect_methods,
  side_effect_method_allowed,
}
use mcp_odoo.RateLimit.{rate_limit_mode, check_rate}
use mcp_odoo.Resolve.{Resolved, resolve_odoo}
use mcp_odoo.Methods.DomainInput.{
  Decoders, valid_conditions, dict_conditions, normalize_list, normalize_decoded,
  normalize_domain_input,
}
use mcp_odoo.Methods.DomainInput.Terms.{
  HasTerms, normalize_domain_input-HasTerms, normalize_domain_input_known,
}
use mcp_odoo.Methods.{
  Server, Traffic, read_only, side_effect, unknown, destructive_blocked, unreviewed_blocked,
  answered, committed_without_result, none_marshal_marker, occurs_in, has_later_word, has_word,
  is_side_effect_name, classify_method_safety, is_reviewed, check_method, search_args, call_method,
  count_and_call, resolve_and_call, execute_method,
}
use mcp_odoo.Methods.Callable.{IsCallable, check_method-IsCallable}
use mcp_odoo.Methods.Gate.{
  IsAllowed, IsCounted, IsAnswer, calls-execute_method, execute_method-IsAnswer,
}

abbrev decoders : Decoders
decoders = record { loads = λ _. none; literal_eval = λ _. none; escapes = λ _. false }

-- the operator has reviewed one method, which returns None
abbrev server : Server
server = record {
  deployment = record {
    host = record { digest = λ _. "?"; render = λ _. "?" };
    env = λ name.
        if str_eq name "ODOO_MCP_ALLOWED_SIDE_EFFECT_METHODS"
        then some "sale.order.action_confirm"
        else none;
    default_instance = "prod";
    connect = λ _. none;
    respond = λ _ call.
        if str_eq call.method "search" then returned (list nil) else raised none_marshal_marker;
  };
  exists = λ _. false;
  decode = λ _. none;
  escapes = λ _. false;
  decoders = decoders;
  is_fault = λ _ _. true;
}

abbrev quiet : Traffic
quiet = record {
  tracker = record { window_seconds = 60; max_calls = 5; events = []; over_budget_totals = [] };
  calls = [];
}

abbrev client : Resolved
client = record { instance_name = "prod"; client = none }

program : Unit {0}
unfolding strip lower is_model_name is_method_name truthy_env policy_file_path split_on
    stripped_names load_side_effect_policy merge_names allowed_side_effect_methods
    side_effect_method_allowed rate_limit_mode check_rate resolve_odoo valid_conditions
    dict_conditions normalize_list normalize_decoded normalize_domain_input after_prefix starts_with
    occurs_in has_later_word has_word is_side_effect_name classify_method_safety is_reviewed
    check_method search_args call_method count_and_call resolve_and_call execute_method
program = tt

classes :
    ((classify_method_safety "get_views").safety ≡ read_only)
    × ((classify_method_safety "send_mail").safety ≡ side_effect)
    × ((classify_method_safety "do_post_now").safety ≡ side_effect)
    × ((classify_method_safety "resend").safety ≡ unknown)
unfolding program
classes = (refl, refl, refl, refl)

answers :
    ((execute_method server quiet "sale.order" "unlink" nil end none 5).1 ≡ err destructive_blocked)
    × ((execute_method server quiet "sale.order" "button_draft" nil end none 5).1
        ≡ err (unreviewed_blocked (classify_method_safety "button_draft")))
    × ((execute_method server quiet "sale.order" "action_confirm" nil end none 5).1
        ≡ ok committed_without_result)
    × ((execute_method server quiet "sale.order" "search" nil end none 5).1
        ≡ ok (answered (list nil)))
unfolding program
answers = (refl, refl, refl, refl)

abbrev condition : Value
condition = list (cons (text "name") (cons (text "=") (cons (text "Ada") nil)))

domains :
    (normalize_domain_input decoders condition ≡ some (cons condition nil))
    × (normalize_domain_input decoders (list (cons condition nil)) ≡ some (cons condition nil))
    × (normalize_domain_input decoders
          (list (cons (text "|") (cons condition (cons null (cons condition nil)))))
        ≡ some (cons (text "|") (cons condition (cons condition nil))))
unfolding program
domains = (refl, refl, refl)

check_method-IsCallable_example :
    (check_method server "sale.order" "action_confirm" ≡ ok tt)
    ↔ IsCallable server "sale.order" "action_confirm"
check_method-IsCallable_example = check_method-IsCallable server "sale.order" "action_confirm"

calls-execute_method_example :
    let after = (execute_method server quiet "sale.order" "action_confirm" nil end none 5).0 in
    (after ≡ quiet)
    ⊎ ((r : Resolved) × (call : Call) × IsAllowed server quiet "sale.order" "action_confirm" nil end
          none 5 r call
        × IsCounted server quiet r call 5 after)
calls-execute_method_example =
    calls-execute_method server quiet "sale.order" "action_confirm" nil end none 5

execute_method-IsAnswer_example :
    (r : Resolved) × (call : Call) × IsAllowed server quiet "sale.order" "action_confirm" nil end
      none 5 r call
    × ((execute_method server quiet "sale.order" "action_confirm" nil end none 5).0.calls
        ≡ [] ++ call ∷ [])
    × IsAnswer server [] call committed_without_result
unfolding program
execute_method-IsAnswer_example =
    execute_method-IsAnswer server quiet "sale.order" "action_confirm" nil end none 5
      committed_without_result refl

normalize_domain_input-HasTerms_example :
    (terms : Items) × (normalize_domain_input decoders (list (cons condition nil)) ≡ some terms)
    × HasTerms terms
normalize_domain_input-HasTerms_example =
    normalize_domain_input-HasTerms decoders (cons condition nil)

normalize_domain_input_known_example :
    normalize_domain_input decoders (list (cons (text "!") (cons condition nil)))
    ≡ some (cons (text "!") (cons condition nil))
normalize_domain_input_known_example =
    normalize_domain_input_known decoders (cons (text "!") (cons condition nil)) (refl, (refl, tt))
      (refl, (refl, tt))
