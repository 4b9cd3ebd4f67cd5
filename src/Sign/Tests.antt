-- ===== src/Sign/Tests.antt =====
-- Runs of `sign_model`, and its theorem at a concrete input.
use mcp_odoo.Prelude.Result.{ok, err}
use mcp_odoo.Prelude.{◌≡◌, refl, true, false, none, some, [], ◌∷◌}
use mcp_odoo.Prelude.Int.{pos}
use mcp_odoo.Prelude.Text.{strip, lower}
use mcp_odoo.Json.{bool, text, list, dict, nil, Fields, end, field}
use mcp_odoo.Write.Host.{returned}
use mcp_odoo.Write.Execute.{truthy_env}
use mcp_odoo.SideEffects.{merge_names}
use mcp_odoo.Resolve.{resolve_odoo}
use mcp_odoo.Sign.Policy.{
  fields_get, search_read, SignServer, SignRequest, model_not_allowed, blocked_fields,
  blocked_write, unlink_blocked, bad_operation, require_confirm, validate_model, normalize_ids,
  sign_model_fields, is_binary, choose_fields, safe_fields, has_any, validate_write_values,
  orm_create, orm_write, orm_unlink, clamp_limit,
}
use mcp_odoo.Sign.{
  plan_search, plan_read, plan_create, plan_write, plan_unlink, plan_operation, plan_change,
  before_read, ask, run_operation, sign_model,
}
use mcp_odoo.Sign.Guarded.{IsGuarded, sign_model-IsGuarded}

abbrev metadata : Fields
metadata =
    field "name" (dict (field "type" (text "char") end))
      (field "state" (dict (field "type" (text "binary") end)) end)

abbrev server : SignServer
server = record {
  deployment = record {
    host = record { digest = λ _. "?"; render = λ _. "?" };
    env = λ _. some "on";
    default_instance = "prod";
    connect = λ _. none;
    respond = λ _ _. returned (bool true);
  };
  casefold = lower;
  is_json2 = λ _. false;
  model_fields = λ _ _. ok metadata;
  answer = λ _ _. returned (list nil);
}

abbrev search_requests : SignRequest
search_requests = record {
  operation = "Search";
  model = "sign.request";
  domain = none;
  fields = none;
  record_ids = some (pos 4 ∷ []);
  values = some (field "state" (text "signed") end);
  limit = pos 500;
  offset = pos 0;
  order = none;
  confirm = true;
  instance = none;
}

program : Unit {0}
unfolding strip lower truthy_env merge_names resolve_odoo require_confirm validate_model
    normalize_ids sign_model_fields is_binary choose_fields safe_fields has_any
    validate_write_values orm_create orm_write orm_unlink clamp_limit plan_search plan_read
    plan_create plan_write plan_unlink plan_operation plan_change before_read ask run_operation
    sign_model
program = tt

runs :
    ((sign_model server [] search_requests).0
      ≡ fields_get none "sign.request"
        ∷ search_read none "sign.request" nil ("id" ∷ "name" ∷ []) 200 0 none
        ∷ [])
    × ((sign_model server []
          (record search_requests { model = "res.users"; operation = "schema" })).0
        ≡ [])
    × ((sign_model server [] (record search_requests { fields = some ("state" ∷ []) })).1
        ≡ err blocked_fields)
    × ((sign_model server [] (record search_requests { operation = "write" })).1
        ≡ err blocked_write)
    × ((sign_model server [] (record search_requests { operation = "unlink" })).1
        ≡ err unlink_blocked)
    × ((sign_model server [] (record search_requests { operation = "sign" })).1 ≡ err bad_operation)
    × ((sign_model server [] (record search_requests { model = "res.users" })).1
        ≡ err model_not_allowed)
unfolding program
runs = (refl, refl, refl, refl, refl, refl, refl)

sign_model-IsGuarded_example :
    IsGuarded server [] search_requests (sign_model server [] search_requests).0
sign_model-IsGuarded_example = sign_model-IsGuarded server [] search_requests
