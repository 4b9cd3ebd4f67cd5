-- ===== src/Write/Tools/Tests.antt =====
-- A validation with an upload and its execution, and the theorems of the tools at concrete inputs.
use mcp_odoo.Prelude.Result.{Result, ok, err}
use mcp_odoo.Prelude.{◌≡◌, ◌⊎◌, refl, true, false, none, some, [], ◌∷◌, arith}
use mcp_odoo.Prelude.Int.{pos, quotient}
use mcp_odoo.Prelude.Text.{strip, lower, split_on, before_suffix}
use mcp_odoo.Json.{bool, text, dict, Fields, end, field, canonical, sort_keys, normalize, eq_value}
use mcp_odoo.Json.Entries.{remove_field}
use mcp_odoo.Write.Host.{str, returned}
use mcp_odoo.Write.Names.{is_model_name}
use mcp_odoo.Write.Preview.{
  Request, build_write_preview_report, preview_issues, batch_issues, size_issues, canonical_payload,
  build_approval_token, write_execute_method_args, method_args, normalized_operation,
}
use mcp_odoo.Write.Validate.{validate_write_report}
use mcp_odoo.Write.Approvals.{
  App, register_write_approval, require_validated_write_approval, sweep_expired_write_approvals,
  verify_write_approval, write_approval_payload, token_of, new_record, stamped,
}
use mcp_odoo.Write.Execute.{
  check_gates, eq_payload, writes_enabled, plan_call, plan_args, to_ids, call_args, with_binaries,
  client_name, run_call, execute_approved_write,
}
use mcp_odoo.Write.Execute.Planned.{requested_call, filled}
use mcp_odoo.Write.Uploads.{
  configured_cap, max_attachment_upload_bytes, resolved_roots, configured_roots, is_relative_to,
  restrict_path, restrict_attachment_upload_path, read_attachment_source_file, path_keys,
  upload_bytes, resolve_keys, resolve_binary_from_path_fields,
}
use mcp_odoo.Resolve.{resolve_odoo}
use mcp_odoo.Write.Tools.{
  ToolError, Surroundings, Prepared, Answer, server, metadata_empty, uploads_need_live_metadata,
  resolve_instance_name, resolve_values, live_metadata, metadata_for, prepare, answer_prepared,
  validate_write,
}
use mcp_odoo.Write.Tools.Trusted.{
  IsTrusted, registered_for, validate_write-IsTrusted, validate_write_delivered,
}

abbrev upload_fields : Fields
upload_fields = field "datas" (dict (field "type" (text "binary") end)) end

abbrev surroundings : Surroundings
surroundings = record {
  deployment = record {
    host = record { digest = λ _. "d"; render = λ _. "?" };
    env = λ _. some "1";
    default_instance = "default";
    connect = λ _. none;
    respond = λ _ _. returned (bool true);
  };
  disk = record {
    env = λ _. some "srv";
    to_int = λ _. none;
    resolve = split_on b'/';
    open_file = λ _. some (record { is_regular = true; size = 3; bytes = 1 ∷ 2 ∷ 3 ∷ [] });
    fingerprint = λ _. "sha256:abc:3";
    base64 = λ _. "AQID";
  };
  instances = none;
  model_fields = λ _ _. ok upload_fields;
}

abbrev attach : Request
attach = record {
  model = "ir.attachment";
  operation = "write";
  values = some (field "datas_from_path" (text "srv/cv.pdf") end);
  values_list = none;
  record_ids = some (pos 7 ∷ []);
  context = none;
  instance = "";
}

abbrev empty_app : App
empty_app = record { write_approvals = []; calls = [] }

program : Unit {0}
unfolding strip lower split_on before_suffix str is_model_name build_write_preview_report
    preview_issues batch_issues size_issues canonical_payload build_approval_token
    write_execute_method_args method_args normalized_operation validate_write_report
    register_write_approval require_validated_write_approval sweep_expired_write_approvals
    verify_write_approval write_approval_payload token_of new_record stamped check_gates eq_payload
    eq_value writes_enabled plan_call plan_args to_ids call_args with_binaries client_name run_call
    execute_approved_write canonical sort_keys normalize quotient remove_field configured_cap
    max_attachment_upload_bytes resolved_roots configured_roots is_relative_to restrict_path
    restrict_attachment_upload_path read_attachment_source_file path_keys upload_bytes resolve_keys
    resolve_binary_from_path_fields resolve_odoo resolve_instance_name resolve_values live_metadata
    metadata_for prepare answer_prepared validate_write
program = tt

abbrev prepared : Prepared
prepared = record {
  request = record attach {
    values = some (field "datas" (text "sha256:abc:3") end);
    instance = "default";
  };
  binaries = ("datas", "AQID") ∷ [];
  source = server;
  metadata = some upload_fields;
}

abbrev validated : App × Result ToolError Answer
validated = validate_write surroundings empty_app attach none none true 100

abbrev shown : Fields
shown =
    stamped (build_write_preview_report surroundings.deployment.host prepared.request).approval 100

abbrev answer : Answer
answer = record {
  report = validate_write_report surroundings.deployment.host prepared.request prepared.metadata;
  source = server;
  stored = true;
  approval = some shown;
}

refusals :
    ((validate_write surroundings empty_app attach none (some upload_fields) true 100).1
      ≡ err uploads_need_live_metadata)
    × ((validate_write
          (record surroundings { model_fields = λ _ _. ok end })
          empty_app
          attach
          none
          none
          true
          100).1
        ≡ err metadata_empty)
    × ((validate_write surroundings empty_app
          (record attach { values = some (field "name" (text "CV") end) })
          none
          none
          false
          100).0
        ≡ empty_app)
unfolding program
refusals = (refl, refl, refl)

validate_write-IsTrusted_example :
    (validated.0 ≡ empty_app)
    ⊎ ((p : Prepared) × (prepare surroundings attach none none true ≡ ok p)
        × IsTrusted surroundings empty_app attach none none true 100 p
        × ((validate_write_report surroundings.deployment.host p.request p.metadata).success ≡ true)
        × (validated.0 ≡ (registered_for surroundings empty_app p 100).app))
validate_write-IsTrusted_example =
    validate_write-IsTrusted surroundings empty_app attach none none true 100

validate_write_delivered_example :
    let call = requested_call surroundings.deployment (filled prepared.binaries prepared.request) in
    ((execute_approved_write surroundings.deployment validated.0 shown true 650).1 ≡ ok (bool true))
    × ((execute_approved_write surroundings.deployment validated.0 shown true 650).0.calls
        ≡ call ∷ [])
unfolding program
validate_write_delivered_example =
    validate_write_delivered surroundings empty_app attach none none true 100 prepared answer shown
      650 (bool true) refl refl refl refl
      (record { values = (refl, tt, tt); context = tt; entries = tt }) refl (omega arith) refl refl
