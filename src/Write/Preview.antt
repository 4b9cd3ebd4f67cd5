-- ===== src/Write/Preview.antt =====
-- `build_write_preview_report` of src/odoo_mcp/agent_tools.py, with the canonical payload, its
-- approval token and the call that it stands for. Messages are left out: an issue is its code.
pub mod WellFormed
use mcp_odoo.Prelude.{
  ℕ, ◌+◌, String, Bool, true, false, not, ◌&&◌, ◌||◌, Option, none, some, List, [], ◌∷◌, ◌++◌, any,
  ltb, ◌==◌, str_eq, if◌then◌else◌,
}
use mcp_odoo.Prelude.Int.{ℤ}
use mcp_odoo.Prelude.Text.{strip, lower}
use mcp_odoo.Json.{
  Value, text, int, list, dict, Items, nil, cons, Fields, end, field, value_fields, truthy, or_else,
  count_items, canonical,
}
use mcp_odoo.Write.Host.{Host, str}
use Prim.Native.String.{◌++◌ as append_text}

pub data IssueCode : Type 0 where
  unsupported_write_operation : IssueCode
  values_list_unsupported_operation : IssueCode
  values_and_values_list : IssueCode
  empty_values_list : IssueCode
  values_list_too_large : IssueCode
  invalid_values_list_entry : ℕ → IssueCode
  missing_create_values : IssueCode
  missing_record_ids : IssueCode
  missing_write_values : IssueCode
  -- of validation: the entry of the batch, if it is one, and the field
  unknown_field readonly_field : Option ℕ → String → IssueCode

pub data Severity : Type 0 where
  error warning info : Severity

pub record Issue : Type 0 where
  pub code : IssueCode
  pub severity : Severity

abbrev is_error : Severity → Bool
is_error error = true
is_error _ = false

-- `any(issue["severity"] == "error" for issue in issues)`
abbrev pub has_error : List Issue → Bool
has_error = any (λ i. is_error i.severity)

-- `if test: issues.append({"code": code, "severity": "error"})`
abbrev pub when : Bool → IssueCode → List Issue
when true c = record { code = c; severity = error } ∷ []
when false c = []

-- the arguments of the tools, after the type checks of the protocol layer
pub record Request : Type 0 where
  pub model : String
  pub operation : String
  pub values : Option Fields
  pub values_list : Option Items
  pub record_ids : Option (List ℤ)
  pub context : Option Fields
  pub instance : String

-- the canonical payload; "values_list" is a key only for batches
pub record Payload : Type 0 where
  pub model : Value
  pub operation : Value
  pub record_ids : Value
  pub values : Value
  pub context : Value
  pub instance : Value
  pub values_list : Option Value

abbrev pub max_write_batch_size : ℕ
max_write_batch_size = 100

-- `WRITE_OPERATIONS`
abbrev pub is_write_operation : String → Bool
is_write_operation op = str_eq op "create" || str_eq op "write" || str_eq op "unlink"

-- `dict(values or {})`
abbrev pub fields_or_empty : Option Fields → Fields
fields_or_empty none = end
fields_or_empty (some fs) = fs

abbrev pub ids_or_empty : Option (List ℤ) → List ℤ
ids_or_empty none = []
ids_or_empty (some ids) = ids

abbrev pub ids_items : List ℤ → Items
ids_items [] = nil
ids_items (i ∷ is) = cons (int i) (ids_items is)

abbrev pub is_empty {ℓ} : {A : Type ℓ} → List A → Bool
is_empty [] = true
is_empty (x ∷ xs) = false

abbrev pub no_fields : Fields → Bool
no_fields end = true
no_fields (field k v fs) = false

-- `not isinstance(entry, dict) or not entry`
abbrev pub is_bad_entry : Value → Bool
is_bad_entry (dict (field k v fs)) = false
is_bad_entry v = true

-- the loop over `enumerate(normalized_values_list)`
unfoldable pub entry_issues : ℕ → Items → List Issue
entry_issues i nil = []
entry_issues i (cons v vs) =
    when (is_bad_entry v) (invalid_values_list_entry i) ++ entry_issues (i + 1) vs

-- the `if not normalized_values_list … elif len(…) > MAX_WRITE_BATCH_SIZE`
unfoldable pub size_issues : Items → List Issue
size_issues vs =
    if count_items vs == 0
    then when true empty_values_list
    else when (ltb max_write_batch_size (count_items vs)) values_list_too_large

-- the issues of the values, with or without a batch
unfoldable pub batch_issues : String → Fields → Option Items → List Issue
batch_issues op values none = when (str_eq op "create" && no_fields values) missing_create_values
batch_issues op values (some entries) =
    when (not (str_eq op "create")) values_list_unsupported_operation
    ++ (when (not (no_fields values)) values_and_values_list
        ++ (size_issues entries ++ entry_issues 0 entries))

unfoldable pub normalized_operation : Request → String
normalized_operation r = lower (strip r.operation)

unfoldable pub preview_issues : Request → List Issue
preview_issues r =
    let op = normalized_operation r in
    let values = fields_or_empty r.values in
    let no_ids = is_empty (ids_or_empty r.record_ids) in
    when (not (is_write_operation op)) unsupported_write_operation
    ++ (batch_issues op values r.values_list
        ++ (when ((str_eq op "write" || str_eq op "unlink") && no_ids) missing_record_ids
            ++ when (str_eq op "write" && no_fields values) missing_write_values))

-- `x or "default"` on a text
abbrev pub text_or : String → String → String
text_or s d = if str_eq s "" then d else s

unfoldable pub canonical_payload : Request → Payload
canonical_payload r = record {
  model = text r.model;
  operation = text (normalized_operation r);
  record_ids = list (ids_items (ids_or_empty r.record_ids));
  values = dict (fields_or_empty r.values);
  context = dict (fields_or_empty r.context);
  instance = text (text_or r.instance "default");
  values_list = elim r.values_list [ none ↦ none | some vs ↦ some (list vs) ];
}

abbrev pub batch_fields : Option Value → Fields
batch_fields none = end
batch_fields (some v) = field "values_list" v end

-- the payload as the dict that is hashed, and with more keys behind it, the approval
abbrev pub payload_then : Payload → Fields → Fields
payload_then p rest = field "model" p.model (
    field "operation" p.operation (
      field "record_ids" p.record_ids
        (field "values" p.values (field "context" p.context (field "instance" p.instance rest)))))

abbrev pub payload_fields : Payload → Fields
payload_fields p = payload_then p (batch_fields p.values_list)

-- `build_approval_token`
unfoldable pub build_approval_token : Host → Value → String
build_approval_token host v = append_text "odoo-write:" (host.digest (canonical v))

-- `{**canonical_payload, "token": approval_token}`
abbrev pub approval_fields : Payload → String → Fields
approval_fields p token = payload_then p (elim p.values_list [
  | none ↦ field "token" (text token) end
  | some v ↦ field "values_list" v (field "token" (text token) end)
])

pub record ExecuteArgs : Type 0 where
  pub model : Value
  pub method : String
  pub args : Items
  pub kwargs : Fields

abbrev pub values_of : Payload → Value
values_of p = or_else (some p.values) (dict end)

abbrev pub ids_of : Payload → Value
ids_of p = or_else (some p.record_ids) (list nil)

-- the positional arguments of `_write_execute_method_args`
unfoldable pub method_args : String → Payload → Items
method_args operation p =
    if str_eq operation "create"
    then (elim p.values_list [
      | none ↦ cons (values_of p) nil
      | some entries ↦ cons (or_else (some entries) (list nil)) nil
    ])
    else if str_eq operation "write"
    then cons (ids_of p) (cons (values_of p) nil)
    else if str_eq operation "unlink"
    then cons (ids_of p) nil
    else nil

-- `_write_execute_method_args`
unfoldable pub write_execute_method_args : Host → Payload → ExecuteArgs
write_execute_method_args host p =
    let operation = str host p.operation in
    let context = or_else (some p.context) (dict end) in
    record {
      model = p.model;
      method = operation;
      args = method_args operation p;
      kwargs = if truthy context then field "context" context end else end;
    }

pub record PreviewReport : Type 0 where
  pub success : Bool
  pub model : String
  pub operation : String
  pub approval : Fields
  pub execute_method : ExecuteArgs
  pub issues : List Issue

-- `build_write_preview_report`
unfoldable pub build_write_preview_report : Host → Request → PreviewReport
build_write_preview_report host r =
    let issues = preview_issues r in
    let payload = canonical_payload r in
    let token = build_approval_token host (dict (payload_fields payload)) in
    record {
      success = not (has_error issues);
      model = r.model;
      operation = normalized_operation r;
      approval = approval_fields payload token;
      execute_method = write_execute_method_args host payload;
      issues = issues;
    }
