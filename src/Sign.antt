-- ===== src/Sign.antt =====
-- `sign_model` of src/odoo_mcp/sign_tools_data.py, the tool over the records of Odoo Sign. The
-- identifiers that a create reports and the audit log are left out.
pub mod Lists
pub mod Policy
pub mod Chosen
pub mod Permitted
pub mod Guarded
mod Tests
use mcp_odoo.Prelude.Result.{Result, err, guard, ok, ◌>>=◌, ◌>>◌}
use mcp_odoo.Prelude.{
  ℕ, String, Bool, ◌||◌, Option, none, some, List, [], ◌∷◌, ◌++◌, str_eq, if◌then◌else◌,
}
use mcp_odoo.Prelude.Dict.{contains}
use mcp_odoo.Prelude.Int.{ℤ, pos, negsuc}
use mcp_odoo.Prelude.Text.{strip}
use mcp_odoo.Json.{Value, Items, nil}
use mcp_odoo.Write.Host.{returned, raised}
use mcp_odoo.Write.Preview.{ids_or_empty, fields_or_empty}
use mcp_odoo.Resolve.{Resolved, resolve_odoo}
use mcp_odoo.Sign.Lists.{unlink_models}
use mcp_odoo.Sign.Policy.{
  SignCall, SignError, SignReply, SignRequest, SignServer, bad_operation, changed, clamp_limit,
  connection_failed, fields_get, normalize_ids, orm_create, orm_unlink, orm_write, read_records,
  remote_failed, require_confirm, rows, safe_fields, schema, search_read, sign_model_fields,
  unlink_blocked, validate_model, validate_write_values,
}

abbrev pub at_least_zero : ℤ → ℕ
at_least_zero (pos n) = n
at_least_zero (negsuc n) = 0

abbrev pub items_or_empty : Option Items → Items
items_or_empty none = nil
items_or_empty (some vs) = vs

abbrev pub is_mutation : String → Bool
is_mutation operation =
    str_eq operation "create" || str_eq operation "write" || str_eq operation "unlink"

-- the call of a search or a read
unfoldable pub plan_search :
    SignServer → Resolved → String → SignRequest → Result SignError SignCall
plan_search s r model q = do
  fields ← safe_fields s r model q.fields
  limit ← clamp_limit q.limit 200
  ok (
      search_read r.client model (items_or_empty q.domain) fields limit (at_least_zero q.offset)
        q.order)

unfoldable pub plan_read : SignServer → Resolved → String → SignRequest → Result SignError SignCall
plan_read s r model q = do
  ids ← normalize_ids (ids_or_empty q.record_ids)
  fields ← safe_fields s r model q.fields
  ok (read_records r.client model ids fields)

unfoldable pub plan_create :
    SignServer → Resolved → String → SignRequest → Result SignError SignCall
plan_create s r model q = do
  values ← validate_write_values model (fields_or_empty q.values)
  ok (orm_create s r model values)

unfoldable pub plan_write : SignServer → Resolved → String → SignRequest → Result SignError SignCall
plan_write s r model q = do
  ids ← normalize_ids (ids_or_empty q.record_ids)
  values ← validate_write_values model (fields_or_empty q.values)
  ok (orm_write s r model ids values)

unfoldable pub plan_unlink :
    SignServer → Resolved → String → SignRequest → Result SignError SignCall
plan_unlink s r model q = do
  guard (contains unlink_models model) unlink_blocked
  ids ← normalize_ids (ids_or_empty q.record_ids)
  ok (orm_unlink s r model ids)

-- the call of a create, a write or an unlink, or the refusal of another operation
unfoldable pub plan_operation :
    SignServer → Resolved → String → String → SignRequest → Result SignError SignCall
plan_operation s r model operation q =
    if str_eq operation "create"
    then plan_create s r model q
    else if str_eq operation "write"
    then plan_write s r model q
    else if str_eq operation "unlink"
    then plan_unlink s r model q
    else err bad_operation

unfoldable pub plan_change :
    SignServer → Resolved → String → String → SignRequest → Result SignError SignCall
plan_change s r model operation q =
    require_confirm s.deployment q.confirm >> plan_operation s r model operation q

-- one call, and its answer
unfoldable pub ask :
    SignServer
    → List SignCall
    → (Value → SignReply)
    → Result SignError SignCall
    → List SignCall × Result SignError SignReply
ask s calls reply (err e) = (calls, err e)
ask s calls reply (ok call) = elim (s.answer calls call) [
  | returned value ↦ (calls ++ call ∷ [], ok (reply value))
  | raised message ↦ (calls ++ call ∷ [], err (remote_failed message))
]

-- the metadata of the model is asked for
abbrev pub after_fields_get : List SignCall → Resolved → String → List SignCall
after_fields_get calls r model = calls ++ fields_get r.client model ∷ []

-- a read asks for the metadata once its identifiers have passed
unfoldable pub before_read : List SignCall → Resolved → String → SignRequest → List SignCall
before_read calls r model q = elim (normalize_ids (ids_or_empty q.record_ids)) [
  | err _ ↦ calls
  | ok _ ↦ after_fields_get calls r model
]

unfoldable pub run_operation :
    SignServer
    → List SignCall
    → Resolved
    → String
    → String
    → SignRequest
    → List SignCall × Result SignError SignReply
run_operation s calls r model operation q =
    if str_eq operation "schema"
    then (after_fields_get calls r model, (do fs ← sign_model_fields s r model; ok (schema fs)))
    else if str_eq operation "search"
    then ask s (after_fields_get calls r model) rows (plan_search s r model q)
    else if str_eq operation "read"
    then ask s (before_read calls r model q) rows (plan_read s r model q)
    else ask s calls changed (plan_change s r model operation q)

abbrev pub with_client :
    SignServer
    → List SignCall
    → String
    → String
    → SignRequest
    → Result String Resolved
    → List SignCall × Result SignError SignReply
with_client s calls model operation q (err message) = (calls, err (connection_failed message))
with_client s calls model operation q (ok r) = run_operation s calls r model operation q

abbrev pub with_model :
    SignServer
    → List SignCall
    → String
    → SignRequest
    → Result SignError String
    → List SignCall × Result SignError SignReply
with_model s calls operation q (err e) = (calls, err e)
with_model s calls operation q (ok model) =
    with_client s calls model operation q (resolve_odoo s.deployment q.instance)

-- `sign_model`
unfoldable pub sign_model :
    SignServer → List SignCall → SignRequest → List SignCall × Result SignError SignReply
sign_model s calls q =
    let operation = s.casefold (strip q.operation) in
    with_model s calls operation q (validate_model q.model (is_mutation operation))
