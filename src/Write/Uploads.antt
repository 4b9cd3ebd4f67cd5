-- ===== src/Write/Uploads.antt =====
-- Uploads of local files (src/odoo_mcp/tools_write.py, server_core.py, tool_helpers.py): an entry
-- "<field>_from_path" of the values is replaced by a fingerprint of the file, whose content stays on
-- the server. The file system and the encodings are parameters.
pub mod Paths
pub mod Midway
pub mod Confined
mod Tests
use mcp_odoo.Prelude.Result.{Result, err, guard, ok, ◌>>=◌, ◌>>◌}
use mcp_odoo.Prelude.{
  ℕ, ◌*◌, min, max, String, Bool, true, false, not, ◌||◌, Option, none, some, List, [], ◌∷◌, ◌++◌,
  any, ltb, str_eq, if◌then◌else◌,
}
use mcp_odoo.Prelude.Dict
use mcp_odoo.Prelude.Dict.{Dict}
use mcp_odoo.Prelude.Int.{ℤ, pos, negsuc}
use mcp_odoo.Prelude.Text.{strip, split_on, before_suffix}
use mcp_odoo.Json.{Value, text, Fields, end, field, get_field, put_field, get_or_null}
use mcp_odoo.Write.Host.{Host, str}
use mcp_odoo.Json.Entries.{has_key, remove_field}

-- an open file: what `fstat` says of it, and its bytes
pub record OpenFile : Type 0 where
  pub is_regular : Bool
  pub size : ℕ
  pub bytes : List ℕ

-- The surroundings. A path is its parts; `resolve` is `Path(p).expanduser().resolve()`; `open_file`
-- is `os.open` with O_NOFOLLOW, none where it raises; `to_int` is Python's `int` of a text;
-- `fingerprint` is the text "sha256:<hex>:<length>", and `base64` the base64 of the bytes.
pub record Disk : Type 0 where
  pub env : String → Option String
  pub to_int : String → Option ℤ
  pub resolve : String → List String
  pub open_file : List String → Option OpenFile
  pub fingerprint : List ℕ → String
  pub base64 : List ℕ → String

pub data UploadError : Type 0 where
  no_roots outside_roots not_regular too_large given_twice : UploadError

abbrev pub attachment_bytes_hard_cap : ℕ
attachment_bytes_hard_cap = 16 * 1024 * 1024

abbrev pub default_max_attachment_bytes : ℕ
default_max_attachment_bytes = 1024 * 1024

abbrev pub default_max_attachment_upload_bytes : ℕ
default_max_attachment_upload_bytes = 10 * 1024 * 1024

-- `max(1, n)`, of an integer
abbrev pub at_least_one : ℤ → ℕ
at_least_one (pos n) = max 1 n
at_least_one (negsuc n) = 1

-- `int(raw) if raw else default`, or the default where `int` raises
unfoldable pub configured_cap : Disk → String → ℕ → ℤ
configured_cap disk name default =
    let raw : String = elim (disk.env name) [ none ↦ "" | some s ↦ strip s ] in
    if str_eq raw ""
    then pos default
    else (elim (disk.to_int raw) [ none ↦ pos default | some n ↦ n ])

abbrev pub min_ℤ : ℤ → ℕ → ℤ
min_ℤ (pos n) cap = pos (min n cap)
min_ℤ (negsuc n) cap = negsuc n

-- `max_attachment_bytes`
unfoldable pub max_attachment_bytes : Disk → ℕ
max_attachment_bytes disk = at_least_one (
    min_ℤ (configured_cap disk "ODOO_MCP_MAX_ATTACHMENT_BYTES" default_max_attachment_bytes)
      attachment_bytes_hard_cap)

-- `max_attachment_upload_bytes`
unfoldable pub max_attachment_upload_bytes : Disk → ℕ
max_attachment_upload_bytes disk = at_least_one (
    min_ℤ
      (configured_cap disk "ODOO_MCP_MAX_ATTACHMENT_UPLOAD_BYTES"
        default_max_attachment_upload_bytes)
      attachment_bytes_hard_cap)

-- the loop over the parts of the variable; os.pathsep is ':'
unfoldable pub resolved_roots : Disk → List String → List (List String)
resolved_roots disk [] = []
resolved_roots disk (raw ∷ raws) =
    let rest = resolved_roots disk raws in if str_eq raw "" then rest else disk.resolve raw ∷ rest

unfoldable pub configured_roots : Disk → String → List (List String)
configured_roots disk name =
    let raw : String = elim (disk.env name) [ none ↦ "" | some s ↦ s ] in
    resolved_roots disk (split_on b':' raw)

-- `candidate == root or _is_relative_to(candidate, root)`: the root's parts come first
unfoldable pub is_relative_to : List String → List String → Bool
is_relative_to path [] = true
is_relative_to [] (r ∷ root) = false
is_relative_to (p ∷ path) (r ∷ root) =
    let rest = is_relative_to path root in if str_eq p r then rest else false

abbrev pub is_within : List (List String) → List String → Bool
is_within roots path = any (is_relative_to path) roots

-- the checks of one path against the roots
unfoldable pub restrict_path : Disk → List (List String) → String → Result UploadError (List String)
restrict_path disk [] raw = err no_roots
restrict_path disk (root ∷ roots) raw =
    let candidate = disk.resolve raw in
    if is_within (root ∷ roots) candidate then ok candidate else err outside_roots

abbrev pub upload_roots : Disk → List (List String)
upload_roots disk = configured_roots disk "ODOO_MCP_ATTACHMENT_UPLOAD_ROOTS"

-- `restrict_attachment_upload_path`
unfoldable pub restrict_attachment_upload_path : Disk → String → Result UploadError (List String)
restrict_attachment_upload_path disk raw = restrict_path disk (upload_roots disk) raw

unfoldable pub restrict_all :
    Disk → List (List String) → List String → Result UploadError (List (List String))
restrict_all disk roots [] = ok []
restrict_all disk roots (raw ∷ raws) = do
  path ← restrict_path disk roots raw
  paths ← restrict_all disk roots raws
  ok (path ∷ paths)

abbrev pub addons_roots : Disk → List (List String)
addons_roots disk = configured_roots disk "ODOO_ADDONS_PATHS"

-- with no roots it raises, also for no paths
unfoldable pub restrict_under :
    Disk → List (List String) → List String → Result UploadError (Option (List (List String)))
restrict_under disk [] raws = err no_roots
restrict_under disk (root ∷ roots) raws = do
  paths ← restrict_all disk (root ∷ roots) raws
  ok (some paths)

-- `restrict_addons_paths`
unfoldable pub restrict_addons_paths :
    Disk → Option (List String) → Result UploadError (Option (List (List String)))
restrict_addons_paths disk none = ok none
restrict_addons_paths disk (some raws) = restrict_under disk (addons_roots disk) raws

-- `_read_attachment_source_file`
unfoldable pub read_attachment_source_file : Disk → List String → ℕ → Result UploadError (List ℕ)
read_attachment_source_file disk path cap = elim (disk.open_file path) [
  | none ↦ err not_regular
  | some file ↦
      if not file.is_regular
      then err not_regular
      else if ltb cap file.size
      then err too_large
      else ok file.bytes
]

abbrev pub from_path_suffix : String
from_path_suffix = "_from_path"

-- the keys that end in the suffix, each with the field that it stands for
unfoldable pub path_keys : Fields → List (String × String)
path_keys end = []
path_keys (field k v fs) =
    let rest = path_keys fs in
    elim (before_suffix from_path_suffix k) [ none ↦ rest | some base ↦ (k, base) ∷ rest ]

-- the bytes of the file that a value names, if it lies under a root
unfoldable pub upload_bytes : Disk → Host → Value → Result UploadError (List ℕ)
upload_bytes disk host raw_path = do
  path ← restrict_attachment_upload_path disk (str host raw_path)
  read_attachment_source_file disk path (max_attachment_upload_bytes disk)

-- the loop over the keys
unfoldable pub resolve_keys :
    Disk
    → Host
    → List (String × String)
    → Fields
    → Dict String
    → Result UploadError (Fields × Dict String)
resolve_keys disk host [] values resolved = ok (values, resolved)
resolve_keys disk host ((key, real_field) ∷ keys) values resolved = do
  guard (not (has_key real_field values)) given_twice
  bytes ← upload_bytes disk host (get_or_null key values)
  resolve_keys disk host keys
      (put_field real_field (text (disk.fingerprint bytes)) (remove_field key values))
      (Dict.put real_field (disk.base64 bytes) resolved)

-- `_resolve_binary_from_path_fields`
unfoldable pub resolve_binary_from_path_fields :
    Disk → Host → Fields → Result UploadError (Fields × Dict String)
unfolding path_keys
resolve_binary_from_path_fields disk host values =
    resolve_keys disk host (path_keys values) values []
