-- ===== src/Sign/Policy.antt =====
-- The guards of src/odoo_mcp/sign_policy.py, with what the tool over the records of Odoo Sign asks
-- of a client and answers.
use mcp_odoo.Prelude.Result.{Result, err, guard, ok, ◌>>=◌, ◌>>◌}
use mcp_odoo.Prelude.{
  ℕ, min, String, Bool, false, not, ◌&&◌, ◌||◌, Option, none, some, List, [], ◌∷◌, keep, take, any,
  all, str_eq, ◌==◌, if◌then◌else◌,
}
use mcp_odoo.Prelude.Dict.{contains}
use mcp_odoo.Prelude.Int.{ℤ, pos, negsuc}
use mcp_odoo.Prelude.Text.{strip}
use mcp_odoo.Json.{
  Value, text, list, dict, Items, nil, cons, Fields, end, field, get_or_null, truthy,
}
use mcp_odoo.Json.Entries.{has_key}
use mcp_odoo.Write.Host.{Call, Reply}
use mcp_odoo.Write.Preview.{ids_items, no_fields}
use mcp_odoo.Write.Execute.{Deployment, truthy_env}
use mcp_odoo.SideEffects.{merge_names}
use mcp_odoo.Chatter.{is_positive}
use mcp_odoo.Resolve.{Resolved}
use mcp_odoo.Sign.Lists.{
  sign_models, mutable_models, blocked_read_fields, blocked_for, default_fields,
}

-- what the tool asks of the client
pub data SignCall : Type 0 where
  search_read : Option String → String → Items → List String → ℕ → ℕ → Option String → SignCall
  read_records : Option String → String → List ℤ → List String → SignCall
  execute : Call → SignCall
  fields_get : Option String → String → SignCall

-- What the tool runs in. `casefold` is Python's; `is_json2` tells of a client's transport;
-- `model_fields` is what the call of `get_model_fields` gives, and `answer` what Odoo answers after the calls before.
pub record SignServer : Type 0 where
  pub deployment : Deployment
  pub casefold : String → String
  pub is_json2 : Option String → Bool
  pub model_fields : Option String → String → Result String Fields
  pub answer : List SignCall → SignCall → Reply

pub data SignError : Type 0 where
  model_not_allowed writes_disabled confirm_required bad_record_ids unknown_fields : SignError
  blocked_fields empty_values blocked_write unlink_blocked bad_operation bad_limit : SignError
  metadata_failed : Value → SignError
  connection_failed remote_failed : String → SignError

pub data SignReply : Type 0 where
  schema : Fields → SignReply
  rows : Value → SignReply
  changed : Value → SignReply

-- the arguments of the tool
pub record SignRequest : Type 0 where
  pub operation : String
  pub model : String
  pub domain : Option Items
  pub fields : Option (List String)
  pub record_ids : Option (List ℤ)
  pub values : Option Fields
  pub limit : ℤ
  pub offset : ℤ
  pub order : Option String
  pub confirm : Bool
  pub instance : Option String

-- `require_confirm`
unfoldable pub require_confirm : Deployment → Bool → Result SignError (Unit {0})
require_confirm d confirm = do
  guard (truthy_env d.env "ODOO_MCP_SIGN_ENABLE_WRITES") writes_disabled
  guard confirm confirm_required

-- `validate_model`
unfoldable pub validate_model : String → Bool → Result SignError String
validate_model model mutable =
    let allowed = if mutable then mutable_models else sign_models in
    if contains allowed (strip model) then ok (strip model) else err model_not_allowed

-- `normalize_ids`
unfoldable pub normalize_ids : List ℤ → Result SignError (List ℤ)
normalize_ids [] = err bad_record_ids
normalize_ids (i ∷ is) = if all is_positive (i ∷ is) then ok (i ∷ is) else err bad_record_ids

abbrev checked_fields : Result String Fields → Result SignError Fields
checked_fields (err message) = err (remote_failed message)
checked_fields (ok fs) =
    let problem = get_or_null "error" fs in
    if truthy problem then err (metadata_failed problem) else ok fs

-- `model_fields`
unfoldable pub sign_model_fields : SignServer → Resolved → String → Result SignError Fields
sign_model_fields s r model = checked_fields (s.model_fields r.client model)

abbrev is_binary_type : Value → Bool
is_binary_type (text t) = str_eq t "binary"
is_binary_type _ = false

abbrev is_binary_field : Value → Bool
is_binary_field (dict fs) = is_binary_type (get_or_null "type" fs)
is_binary_field _ = false

-- `isinstance(field, dict) and field.get("type") == "binary"`
unfoldable pub is_binary : Fields → String → Bool
is_binary metadata name = is_binary_field (get_or_null name metadata)

abbrev pub is_known : Fields → String → Bool
is_known metadata name = str_eq name "id" || has_key name metadata

-- a field that is given by `sign_files` only
abbrev pub is_kept_back : Fields → String → Bool
is_kept_back metadata name = contains blocked_read_fields name || is_binary metadata name

abbrev pub is_default : Fields → String → Bool
is_default metadata name =
    str_eq name "id" || has_key name metadata && not (is_kept_back metadata name)

-- the fields that are asked for, or those by default
unfoldable pub choose_fields : Fields → Option (List String) → Result SignError (List String)
choose_fields metadata none = ok (take 40 (keep (is_default metadata) default_fields))
choose_fields metadata (some requested) =
    if not (all (is_known metadata) requested)
    then err unknown_fields
    else if any (is_kept_back metadata) requested
    then err blocked_fields
    else ok (merge_names [] requested)

-- `safe_fields`
unfoldable pub safe_fields :
    SignServer → Resolved → String → Option (List String) → Result SignError (List String)
safe_fields s r model requested = do
  metadata ← sign_model_fields s r model
  choose_fields metadata requested

-- whether a name of the values is among some names
unfoldable pub has_any : List String → Fields → Bool
has_any names end = false
has_any names (field k v fs) = contains names k || has_any names fs

-- `validate_write_values`
unfoldable pub validate_write_values : String → Fields → Result SignError Fields
validate_write_values model values =
    if no_fields values
    then err empty_values
    else if has_any (blocked_for model) values
    then err blocked_write
    else ok values

abbrev orm_call : Resolved → String → String → Items → Fields → SignCall
orm_call r model method args kwargs =
    execute
      (record { instance = r.client; model = model; method = method; args = args; kwargs = kwargs })

-- `orm_create`
unfoldable pub orm_create : SignServer → Resolved → String → Fields → SignCall
orm_create s r model values =
    let vals_list = list (cons (dict values) nil) in
    if s.is_json2 r.client
    then orm_call r model "create" nil (field "vals_list" vals_list end)
    else orm_call r model "create" (cons vals_list nil) end

-- `orm_write`
unfoldable pub orm_write : SignServer → Resolved → String → List ℤ → Fields → SignCall
orm_write s r model ids values =
    let ids' = list (ids_items ids) in
    if s.is_json2 r.client
    then orm_call r model "write" nil (field "ids" ids' (field "vals" (dict values) end))
    else orm_call r model "write" (cons ids' (cons (dict values) nil)) end

-- `orm_unlink`
unfoldable pub orm_unlink : SignServer → Resolved → String → List ℤ → SignCall
orm_unlink s r model ids =
    let ids' = list (ids_items ids) in
    if s.is_json2 r.client
    then orm_call r model "unlink" nil (field "ids" ids' end)
    else orm_call r model "unlink" (cons ids' nil) end

-- `clamp_limit`
unfoldable pub clamp_limit : ℤ → ℕ → Result SignError ℕ
clamp_limit (negsuc n) maximum = err bad_limit
clamp_limit (pos n) maximum = if n == 0 then err bad_limit else ok (min n maximum)
