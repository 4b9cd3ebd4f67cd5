-- ===== src/Write/Execute.antt =====
-- `_execute_approved_write_gated` of src/odoo_mcp/tools_write.py: every gate, the call that the
-- approval stands for, and its execution. A raise inside the `try` is an error value, as for the
-- caller.
pub mod Gates
pub mod Safety
pub mod Replay
pub mod Planned
pub mod Delivery
use mcp_odoo.Prelude.Result.{Result, err, guard, ok, ◌>>=◌, ◌>>◌}
use mcp_odoo.Prelude.{
  ℕ, ◌^◌, String, Bool, true, false, not, ◌||◌, Option, none, some, List, [], ◌∷◌, ◌++◌, str_eq,
  if◌then◌else◌,
}
use mcp_odoo.Prelude.Dict
use mcp_odoo.Prelude.Dict.{Dict}
use mcp_odoo.Prelude.Int.{ℤ, pos, quotient}
use mcp_odoo.Prelude.Text.{strip, lower}
use mcp_odoo.Json.{
  Value, bool, int, float, text, list, dict, Items, nil, cons, Fields, end, field, get_field,
  put_field, or_else, truthy, eq_value,
}
use mcp_odoo.Json.Entries.{has_key}
use mcp_odoo.Write.Host.{Host, str, Call, Reply, returned, raised}
use mcp_odoo.Write.Names.{is_model_name}
use mcp_odoo.Write.Preview.{Payload, is_write_operation, ids_items, payload_fields}
use mcp_odoo.Write.Approvals.{
  ValidationRecord, App, write_approval_payload, verify_write_approval, token_of, text_at,
  require_validated_write_approval,
}

pub data GateError : Type 0 where
  token_mismatch not_validated payload_mismatch confirm_required writes_disabled : GateError
  invalid_model invalid_operation bad_value : GateError
  connection_failed remote_failed : String → GateError

-- The server's surroundings: `env` is `os.environ`, `connect` raises (with a text) or gives the
-- named client, and `respond` is what Odoo answers after the calls made before.
pub record Deployment : Type 0 where
  pub host : Host
  pub env : String → Option String
  pub default_instance : String
  pub connect : Option String → Option String
  pub respond : List Call → Call → Reply

-- `truthy_env` of src/odoo_mcp/tool_helpers.py
unfoldable pub truthy_env : (String → Option String) → String → Bool
truthy_env env name =
    let raw : String = elim (env name) [ none ↦ "" | some s ↦ s ] in
    let flag = lower (strip raw) in
    str_eq flag "1" || str_eq flag "true" || str_eq flag "yes" || str_eq flag "on"

-- `writes_enabled` of src/odoo_mcp/write_policy.py
unfoldable pub writes_enabled : (String → Option String) → Bool
unfolding truthy_env
writes_enabled env = truthy_env env "ODOO_MCP_ENABLE_WRITES"

-- Python's `==` on two payload dicts; the key "values_list" may be missing
unfoldable pub eq_payload : Payload → Payload → Bool
eq_payload p q = eq_value (dict (payload_fields p)) (dict (payload_fields q))

-- The gates before the call is built. The store may lose the record asked for, if it has expired.
unfoldable pub check_gates :
    Deployment → App → Fields → Bool → ℕ → App × Result GateError ValidationRecord
check_gates d app approval confirm now =
    if not (verify_write_approval d.host approval)
    then (app, err token_mismatch)
    else let (app', found) = require_validated_write_approval d.host app approval now in
      elim found [
        | none ↦ (app', err not_validated)
        | some r ↦
            if not (eq_payload (write_approval_payload approval) r.payload)
            then (app', err payload_mismatch)
            else if not confirm
            then (app', err confirm_required)
            else if not (writes_enabled d.env)
            then (app', err writes_disabled)
            else (app', ok r)
      ]

-- `dict(v)` and `int(v)`. What other values these take (a list of pairs, a text of digits) cannot
-- pass the comparison with a payload that validation has stored, and is refused here.
abbrev to_fields : Value → Result GateError Fields
to_fields (dict fs) = ok fs
to_fields _ = err bad_value

abbrev to_int : Value → Result GateError ℤ
to_int (int a) = ok a
to_int (bool b) = ok (if b then pos 1 else pos 0)
to_int (float m e) = ok (quotient m (2 ^ e))
to_int _ = err bad_value

abbrev to_items : Value → Result GateError Items
to_items (list vs) = ok vs
to_items _ = err bad_value

-- `[int(record_id) for record_id in …]`
unfoldable pub to_ids : Items → Result GateError (List ℤ)
to_ids nil = ok []
to_ids (cons v vs) = do a ← to_int v; rest ← to_ids vs; ok (a ∷ rest)

-- `if field_name in values: values[field_name] = real_base64`, for each resolved field
unfoldable pub with_binaries : Dict String → Fields → Fields
with_binaries [] values = values
with_binaries ((name, content) ∷ rest) values =
    with_binaries rest
      (if has_key name values then put_field name (text content) values else values)

-- the positional arguments; a batch takes the place of the values of a create
unfoldable pub call_args : String → Fields → Option Value → List ℤ → Result GateError Items
call_args operation values values_list ids =
    if str_eq operation "create"
    then (elim values_list [
      | some v ↦ do vs ← to_items v; ok (cons (list vs) nil)
      | none ↦ ok (cons (dict values) nil)
    ])
    else if str_eq operation "write"
    then ok (cons (list (ids_items ids)) (cons (dict values) nil))
    else ok (cons (list (ids_items ids)) nil)

-- the default client for no name and for the name of the default instance
unfoldable pub client_name : Deployment → Fields → Option String
client_name d approval =
    let name = str d.host (or_else (get_field "instance" approval) (text "")) in
    if str_eq name "" || str_eq name d.default_instance then none else some name

-- the arguments and the context of the call, with the file contents put in
unfoldable pub plan_args : Fields → ValidationRecord → String → Result GateError (Items × Fields)
plan_args approval r operation = do
  given_values ← to_fields (or_else (get_field "values" approval) (dict end))
  let values = with_binaries r.resolved_binary_values given_values
  id_items ← to_items (or_else (get_field "record_ids" approval) (list nil))
  ids ← to_ids id_items
  context ← to_fields (or_else (get_field "context" approval) (dict end))
  args ← call_args operation values (write_approval_payload approval).values_list ids
  ok (args, context)

-- the call that an approval stands for
unfoldable pub plan_call : Deployment → Fields → ValidationRecord → Result GateError Call
plan_call d approval r = do
  let model = text_at d.host "model" approval
  let operation = lower (strip (text_at d.host "operation" approval))
  guard (is_model_name model) invalid_model
  guard (is_write_operation operation) invalid_operation
  (args, context) ← plan_args approval r operation
  ok (record {
    instance = client_name d approval;
    model = model;
    method = operation;
    args = args;
    kwargs = if truthy (dict context) then field "context" (dict context) end else end;
  })

-- the remote call; a raise leaves the approval in the store
unfoldable pub run_call : Deployment → App → Fields → Call → App × Result GateError Value
run_call d app approval call = elim (d.connect call.instance) [
  | some message ↦ (app, err (connection_failed message))
  | none ↦
      let sent = record app { calls = app.calls ++ call ∷ [] } in
      elim (d.respond app.calls call) [
        | raised message ↦ (sent, err (remote_failed message))
        | returned value ↦ (
          record sent {
            write_approvals = Dict.remove (token_of d.host approval) sent.write_approvals;
          },
          ok value,
        )
      ]
]

abbrev pub run_planned :
    Deployment → App → Fields → Result GateError Call → App × Result GateError Value
run_planned d app approval (err e) = (app, err e)
run_planned d app approval (ok call) = run_call d app approval call

abbrev pub run_checked :
    Deployment → App → Fields → Result GateError ValidationRecord → App × Result GateError Value
run_checked d app approval (err e) = (app, err e)
run_checked d app approval (ok r) = run_planned d app approval (plan_call d approval r)

-- `_execute_approved_write_gated`
unfoldable pub execute_approved_write :
    Deployment → App → Fields → Bool → ℕ → App × Result GateError Value
execute_approved_write d app approval confirm now =
    let (app', checked) = check_gates d app approval confirm now in
    run_checked d app' approval checked
