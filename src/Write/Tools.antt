-- ===== src/Write/Tools.antt =====
-- The tools `preview_write` and `validate_write` of src/odoo_mcp/tools_write.py, with
-- `resolve_instance_name` of src/odoo_mcp/server_core.py. The audit log is left out.
pub mod Trusted
mod Tests
use mcp_odoo.Prelude.Result.{Result, err, guard, ok, ◌>>=◌, ◌>>◌}
use mcp_odoo.Prelude.{
  ℕ, String, Bool, true, false, not, ◌&&◌, ◌||◌, Option, none, some, List, [], ◌∷◌, str_eq,
  if◌then◌else◌,
}
use mcp_odoo.Prelude.Dict.{Dict, contains}
use mcp_odoo.Json.{Value, Fields, end, field, get_field, get_or_null}
use mcp_odoo.Json.Entries.{has_key}
use mcp_odoo.Write.Names.{is_model_name}
use mcp_odoo.Write.Preview.{Request, PreviewReport, build_write_preview_report, no_fields}
use mcp_odoo.Write.Validate.{ValidateReport, validate_write_report}
use mcp_odoo.Write.Approvals.{App, register_write_approval}
use mcp_odoo.Write.Execute.{Deployment}
use mcp_odoo.Write.Uploads.{Disk, UploadError, resolve_binary_from_path_fields}
use mcp_odoo.Resolve.{Resolved, resolve_odoo}

pub data ToolError : Type 0 where
  invalid_model unknown_instance uploads_need_live_metadata metadata_empty : ToolError
  upload_failed : UploadError → ToolError
  metadata_failed : Value → ToolError
  connection_failed remote_failed : String → ToolError

-- What the tools run in. `instances` are the names that are configured, none without a file;
-- `model_fields` is `get_model_fields` of a client, which may raise with a text.
pub record Surroundings : Type 0 where
  pub deployment : Deployment
  pub disk : Disk
  pub instances : Option (List String)
  pub model_fields : Option String → String → Result String Fields

abbrev named_instance : Option (List String) → String → Result ToolError String
named_instance none name = ok name
named_instance (some names) name = if contains names name then ok name else err unknown_instance

-- `resolve_instance_name`
unfoldable pub resolve_instance_name : Surroundings → Option String → Result ToolError String
resolve_instance_name s none = ok s.deployment.default_instance
resolve_instance_name s (some name) =
    if str_eq name "" then ok s.deployment.default_instance else named_instance s.instances name

-- `preview_write`: the instance of the request is the one that is named
unfoldable pub preview_write :
    Surroundings → Request → Option String → Result ToolError PreviewReport
preview_write s r instance = do
  guard (is_model_name r.model) invalid_model
  name ← resolve_instance_name s instance
  ok (build_write_preview_report s.deployment.host (record r { instance = name }))

pub data Source : Type 0 where
  input server nowhere : Source

-- what `validate_write` hands to `validate_write_report`, and what it keeps for the store
pub record Prepared : Type 0 where
  pub request : Request
  pub binaries : Dict String
  pub source : Source
  pub metadata : Option Fields

abbrev uploaded :
    Result UploadError (Fields × Dict String) → Result ToolError (Option Fields × Dict String)
uploaded (err e) = err (upload_failed e)
uploaded (ok (values, binaries)) = ok (some values, binaries)

-- `if values: values, resolved_binary_values = _resolve_binary_from_path_fields(values)`
unfoldable pub resolve_values :
    Surroundings → Option Fields → Result ToolError (Option Fields × Dict String)
resolve_values s none = ok (none, [])
resolve_values s (some end) = ok (some end, [])
resolve_values s (some (field k v fs)) =
    uploaded (resolve_binary_from_path_fields s.disk s.deployment.host (field k v fs))

abbrev trusted_fields : Result String Fields → Result ToolError Fields
trusted_fields (err message) = err (remote_failed message)
trusted_fields (ok fs) =
    if has_key "error" fs
    then err (metadata_failed (get_or_null "error" fs))
    else if no_fields fs
    then err metadata_empty
    else ok fs

abbrev fields_of : Surroundings → String → Result String Resolved → Result ToolError Fields
fields_of s model (err message) = err (connection_failed message)
fields_of s model (ok r) = trusted_fields (s.model_fields r.client model)

-- the metadata that Odoo has now, which is neither an error nor empty
unfoldable pub live_metadata : Surroundings → Option String → String → Result ToolError Fields
live_metadata s instance model = fields_of s model (resolve_odoo s.deployment instance)

-- where the metadata comes from
unfoldable pub metadata_for :
    Surroundings
    → Option String
    → String
    → Option Fields
    → Bool
    → Result ToolError (Source × Option Fields)
metadata_for s instance model (some given) live = ok (input, some given)
metadata_for s instance model none false = ok (nowhere, none)
metadata_for s instance model none true = do
  fs ← live_metadata s instance model
  ok (server, some fs)

abbrev is_given : Option Fields → Bool
is_given none = false
is_given (some fs) = true

abbrev has_entries : Dict String → Bool
has_entries [] = false
has_entries (entry ∷ d) = true

-- everything up to the report
unfoldable pub prepare :
    Surroundings → Request → Option String → Option Fields → Bool → Result ToolError Prepared
prepare s r instance given live = do
  guard (is_model_name r.model) invalid_model
  name ← resolve_instance_name s instance
  (values, binaries) ← resolve_values s r.values
  guard (not (has_entries binaries && (is_given given || not live))) uploads_need_live_metadata
  (source, metadata) ← metadata_for s instance r.model given live
  ok (record {
    request = record r { values = values; instance = name };
    binaries = binaries;
    source = source;
    metadata = metadata;
  })

pub record Answer : Type 0 where
  pub report : ValidateReport
  pub source : Source
  pub stored : Bool
  pub approval : Option Fields

-- `metadata_source == "server" and isinstance(fields_metadata, dict) and bool(fields_metadata)`
abbrev pub is_trusted : Source → Option Fields → Bool
is_trusted server (some fs) = not (no_fields fs)
is_trusted _ _ = false

-- the report, and the approval in the store if the metadata is trusted
unfoldable pub answer_prepared : Surroundings → App → Prepared → ℕ → App × Answer
answer_prepared s app p now =
    let report = validate_write_report s.deployment.host p.request p.metadata in
    let registered = register_write_approval s.deployment.host app report p.binaries now in
    if is_trusted p.source p.metadata
    then (
      registered.app,
      record {
        report = report;
        source = p.source;
        stored = registered.stored;
        approval = registered.approval;
      },
    )
    else (
      app,
      record { report = report; source = p.source; stored = false; approval = report.approval },
    )

abbrev validate_prepared :
    Surroundings → App → ℕ → Result ToolError Prepared → App × Result ToolError Answer
validate_prepared s app now (err e) = (app, err e)
validate_prepared s app now (ok p) =
    let (app', answer) = answer_prepared s app p now in (app', ok answer)

-- `validate_write`
unfoldable pub validate_write :
    Surroundings
    → App
    → Request
    → Option String
    → Option Fields
    → Bool
    → ℕ
    → App × Result ToolError Answer
validate_write s app r instance given live now =
    validate_prepared s app now (prepare s r instance given live)
