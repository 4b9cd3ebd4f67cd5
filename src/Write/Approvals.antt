-- ===== src/Write/Approvals.antt =====
-- The store of validated approvals (src/odoo_mcp/server_core.py) and the token check
-- (`verify_write_approval` of src/odoo_mcp/agent_tools.py). Clock readings are whole seconds.
pub mod Stored
use mcp_odoo.Prelude.{
  ℕ, ◌+◌, String, Bool, true, false, not, Option, none, some, List, [], ◌∷◌, ltb, str_eq,
  if◌then◌else◌,
}
use mcp_odoo.Prelude.Dict
use mcp_odoo.Prelude.Dict.{Dict}
use mcp_odoo.Prelude.Int.{pos}
use mcp_odoo.Json.{
  Value, null, int, text, list, dict, nil, Fields, end, get_field, get_or_null, put_field, or_else,
}
use mcp_odoo.Write.Host.{Host, str, Call}
use mcp_odoo.Write.Preview.{Payload, payload_fields, build_approval_token}
use mcp_odoo.Write.Validate.{ValidateReport}

-- `resolved_binary_values` is the file content that stays on the server
pub record ValidationRecord : Type 0 where
  pub approval : Fields
  pub payload : Payload
  pub validated_at : ℕ
  pub expires_at : ℕ
  pub resolved_binary_values : Dict String

-- The part of `AppContext` that writes use, and the remote calls made so far.
pub record App : Type 0 where
  pub write_approvals : Dict ValidationRecord
  pub calls : List Call

abbrev pub write_approval_ttl_seconds : ℕ
write_approval_ttl_seconds = 600

-- `approval.get("values_list")`, unless it is None
abbrev not_null : Option Value → Option Value
not_null none = none
not_null (some null) = none
not_null (some v) = some v

-- `write_approval_payload`
unfoldable pub write_approval_payload : Fields → Payload
write_approval_payload approval = record {
  model = get_or_null "model" approval;
  operation = get_or_null "operation" approval;
  record_ids = or_else (get_field "record_ids" approval) (list nil);
  values = or_else (get_field "values" approval) (dict end);
  context = or_else (get_field "context" approval) (dict end);
  instance = or_else (get_field "instance" approval) (text "default");
  values_list = not_null (get_field "values_list" approval);
}

-- `str(approval.get(k, ""))`
unfoldable pub text_at : Host → String → Fields → String
text_at host k approval = elim (get_field k approval) [ none ↦ "" | some v ↦ str host v ]

unfoldable pub token_of : Host → Fields → String
unfolding text_at
token_of host approval = text_at host "token" approval

-- `verify_write_approval`
unfoldable pub verify_write_approval : Host → Fields → Bool
verify_write_approval host approval =
    str_eq (token_of host approval)
      (build_approval_token host (dict (payload_fields (write_approval_payload approval))))

-- the pops of the expired tokens
unfoldable pub without_expired : ℕ → Dict ValidationRecord → Dict ValidationRecord
without_expired now [] = []
without_expired now ((token, r) ∷ rest) =
    let swept = without_expired now rest in
    if ltb r.expires_at now then swept else (token, r) ∷ swept

-- `_sweep_expired_write_approvals`
unfoldable pub sweep_expired_write_approvals : App → ℕ → App
unfolding without_expired
sweep_expired_write_approvals app now = record app {
  write_approvals = without_expired now app.write_approvals;
}

unfoldable pub new_record : Fields → Dict String → ℕ → ValidationRecord
new_record approval binaries now = record {
  approval = approval;
  payload = write_approval_payload approval;
  validated_at = now;
  expires_at = now + write_approval_ttl_seconds;
  resolved_binary_values = binaries;
}

-- `approval["validated_at"] = now; approval["expires_at"] = …`, on the dict that the caller gets
unfoldable pub stamped : Fields → ℕ → Fields
stamped approval now =
    put_field "expires_at" (int (pos (now + write_approval_ttl_seconds)))
      (put_field "validated_at" (int (pos now)) approval)

pub record Registered : Type 0 where
  pub app : App
  pub stored : Bool
  pub approval : Option Fields

-- `register_write_approval`
unfoldable pub register_write_approval : Host → App → ValidateReport → Dict String → ℕ → Registered
register_write_approval host app report binaries now = elim report.approval [
  | none ↦ record { app = app; stored = false; approval = none }
  | some approval ↦
      let token = token_of host approval in
      let swept = sweep_expired_write_approvals app now in
      if not report.success
      then record { app = app; stored = false; approval = some approval }
      else if str_eq token ""
      then record { app = app; stored = false; approval = some approval }
      else record {
        app = record swept {
          write_approvals = Dict.put token (new_record approval binaries now) swept.write_approvals;
        };
        stored = true;
        approval = some (stamped approval now);
      }
]

-- `require_validated_write_approval`: an expired record is dropped when it is asked for
unfoldable pub require_validated_write_approval :
    Host → App → Fields → ℕ → App × Option ValidationRecord
require_validated_write_approval host app approval now =
    let token = token_of host approval in
    elim (Dict.get token app.write_approvals) [
      | none ↦ (app, none)
      | some r ↦
          if ltb r.expires_at now
          then (record app { write_approvals = Dict.remove token app.write_approvals }, none)
          else (app, some r)
    ]
