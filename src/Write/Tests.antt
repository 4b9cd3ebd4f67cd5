-- ===== src/Write/Tests.antt =====
-- Runs of the write path, and its theorems at concrete inputs.
use mcp_odoo.Prelude.Result.{err, ok}
use Prim.Native.String.{◌++◌ as append_text}
use mcp_odoo.Prelude.{
  List, ◌^◌, String, ◌≡◌, ◌↔◌, ◌⊎◌, refl, true, false, none, some, [], ◌∷◌, ◌++◌, arith,
}
use mcp_odoo.Prelude.Int.{pos, quotient, times}
use mcp_odoo.Prelude.Text.{strip, lower}
use mcp_odoo.Json.{
  Value, bool, int, float, text, list, dict, Items, nil, cons, Fields, end, field, canonical,
  sort_keys, normalize, eq_value,
}
use mcp_odoo.Json.Canonical.{as_float, resent_dict, resent_end, resent_field, canonical-Resent}
use mcp_odoo.Write.Host.{str, Call, returned}
use mcp_odoo.Write.Names.{is_model_name}
use mcp_odoo.Write.Preview.{
  Request, build_write_preview_report, preview_issues, batch_issues, size_issues, canonical_payload,
  build_approval_token, write_execute_method_args, method_args, normalized_operation,
  is_write_operation,
}
use mcp_odoo.Write.Preview.WellFormed.{IsAcceptable, preview-IsAcceptable}
use mcp_odoo.Write.Validate.{validate_write_report}
use mcp_odoo.Write.Approvals.{
  ValidationRecord, App, Registered, register_write_approval, require_validated_write_approval,
  sweep_expired_write_approvals, verify_write_approval, write_approval_payload, token_of,
  new_record, stamped,
}
use mcp_odoo.Write.Approvals.Stored.{verify-preview}
use mcp_odoo.Write.Execute.{
  Deployment, token_mismatch, not_validated, confirm_required, check_gates, eq_payload,
  writes_enabled, plan_call, plan_args, to_ids, call_args, with_binaries, client_name, run_call,
  execute_approved_write,
}
use mcp_odoo.Write.Execute.Gates.{IsAuthorised}
use mcp_odoo.Write.Execute.Safety.{calls-execute_approved_write}
use mcp_odoo.Write.Execute.Replay.{Attempt, after_attempts, execute_approved_write_replay}
use mcp_odoo.Write.Execute.Planned.{requested_call}
use mcp_odoo.Write.Execute.Delivery.{validated_write_delivered}

-- a digest that shows the texts and the keys of a value
mutual
  sketch : Value → String
  sketch (text s) = s
  sketch (list vs) = append_text "[" (sketch_items vs)
  sketch (dict fs) = append_text "{" (sketch_fields fs)
  sketch _ = "#"

  sketch_items : Items → String
  sketch_items nil = "]"
  sketch_items (cons v vs) = append_text (sketch v) (append_text "," (sketch_items vs))

  sketch_fields : Fields → String
  sketch_fields end = "}"
  sketch_fields (field k v fs) =
      append_text k (append_text ":" (append_text (sketch v) (append_text "," (sketch_fields fs))))

abbrev deployment : Deployment
deployment = record {
  host = record { digest = sketch; render = λ _. "?" };
  env = λ _. some " Yes ";
  default_instance = "default";
  connect = λ _. none;
  respond = λ _ _. returned (bool true);
}

abbrev rename_partner : Request
rename_partner = record {
  model = "res.partner";
  operation = " Write";
  values = some (field "name" (text "Ada") end);
  values_list = none;
  record_ids = some (pos 7 ∷ []);
  context = none;
  instance = "";
}

abbrev partner_fields : Fields
partner_fields = field "name" (dict (field "type" (text "char") end)) end

abbrev empty_app : App
empty_app = record { write_approvals = []; calls = [] }

program : Unit {0}
unfolding strip lower str is_model_name build_write_preview_report preview_issues batch_issues
    size_issues canonical_payload build_approval_token write_execute_method_args method_args
    normalized_operation validate_write_report register_write_approval
    require_validated_write_approval sweep_expired_write_approvals verify_write_approval
    write_approval_payload token_of new_record stamped check_gates eq_payload eq_value
    writes_enabled plan_call plan_args to_ids call_args with_binaries client_name run_call
    execute_approved_write canonical sort_keys normalize quotient sketch
program = tt

abbrev validated : Registered
validated =
    register_write_approval deployment.host empty_app
      (validate_write_report deployment.host rename_partner (some partner_fields)) [] 100

abbrev approved : Fields
approved = field "model" (text "res.partner") (
    field "operation" (text "write") (
      field "record_ids" (list (cons (float (pos 14) 1) nil)) (
        field "values" (dict (field "name" (text "Ada") end)) (
          field "context" (dict end) (
            field "instance" (text "default") (
              field "token"
                (text
                  "odoo-write:{context:{},instance:default,model:res.partner,operation:write,record_ids:[#,],values:{name:Ada,},}")
                end))))))

-- the approval comes back with the record id as a float, and is executed as the stored write
executed :
    (execute_approved_write deployment validated.app approved true 700).0.calls
    ≡ record {
      instance = none;
      model = "res.partner";
      method = "write";
      args = cons (list (cons (int (pos 7)) nil)) (cons (dict (field "name" (text "Ada") end)) nil);
      kwargs = end;
    }
      ∷ []
unfolding program
executed = refl

refusals :
    ((execute_approved_write deployment validated.app approved true 701).1 ≡ err not_validated)
    × ((execute_approved_write deployment validated.app approved false 700).1
        ≡ err confirm_required)
    × ((execute_approved_write deployment empty_app approved true 700).1 ≡ err not_validated)
    × ((execute_approved_write deployment validated.app end true 700).1 ≡ err token_mismatch)
unfolding program
refusals = (refl, refl, refl, refl)

preview-IsAcceptable_example :
    ((build_write_preview_report deployment.host rename_partner).success ≡ true)
    ↔ IsAcceptable rename_partner
preview-IsAcceptable_example = preview-IsAcceptable deployment.host rename_partner

verify-preview_example :
    verify_write_approval deployment.host
      (build_write_preview_report deployment.host rename_partner).approval
    ≡ true
verify-preview_example = verify-preview deployment.host rename_partner

canonical-Resent_example :
    canonical (dict (field "id" (int (pos 7)) end))
    ≡ canonical (dict (field "id" (float (times (pos 7) (2 ^ 1)) 1) end))
canonical-Resent_example =
    canonical-Resent (resent_dict (resent_field "id" (as_float (pos 7) 1) resent_end))

calls-execute_approved_write_example :
    ((execute_approved_write deployment validated.app approved true 700).0.calls
      ≡ validated.app.calls)
    ⊎ ((r : ValidationRecord) × (call : Call) × IsAuthorised deployment validated.app approved true
          700 r
        × (plan_call deployment approved r ≡ ok call)
        × (is_model_name call.model ≡ true)
        × (is_write_operation call.method ≡ true)
        × ((execute_approved_write deployment validated.app approved true 700).0.calls
            ≡ validated.app.calls ++ call ∷ []))
calls-execute_approved_write_example =
    calls-execute_approved_write deployment validated.app approved true 700

abbrev attempts : List Attempt
attempts = record { approval = approved; confirm = true; now = 710 } ∷ []

execute_approved_write_replay_example :
    let app' =
      after_attempts deployment
        (execute_approved_write deployment validated.app approved true 700).0
        attempts in
    (execute_approved_write deployment app' approved true 720 ≡ (app', err token_mismatch))
    ⊎ (execute_approved_write deployment app' approved true 720 ≡ (app', err not_validated))
unfolding program
execute_approved_write_replay_example =
    execute_approved_write_replay deployment validated.app approved approved true true 700 720
      (bool true) attempts refl refl

abbrev stamped_approval : Fields
stamped_approval = stamped (build_write_preview_report deployment.host rename_partner).approval 100

-- the name stands for a fingerprint, and the content that was stored is sent
abbrev uploaded : Registered
uploaded =
    register_write_approval deployment.host empty_app
      (validate_write_report deployment.host rename_partner (some partner_fields))
      (("name", "AQID") ∷ []) 100

validated_write_delivered_example :
    ((execute_approved_write deployment uploaded.app stamped_approval true 650).1 ≡ ok (bool true))
    × ((execute_approved_write deployment uploaded.app stamped_approval true 650).0.calls
        ≡ requested_call deployment
            (record rename_partner { values = some (field "name" (text "AQID") end) })
          ∷ [])
unfolding program
validated_write_delivered_example =
    validated_write_delivered deployment empty_app rename_partner (some partner_fields)
      (("name", "AQID") ∷ []) 100 stamped_approval 650 (bool true) refl refl
      (record { values = (refl, tt, tt); context = tt; entries = tt }) refl refl (omega arith) refl
      refl
