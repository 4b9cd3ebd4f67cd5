-- ===== src/Write/Uploads/Tests.antt =====
-- Runs of the resolution of uploads, and its theorem at a concrete input.
use mcp_odoo.Prelude.Result.{ok, err}
use mcp_odoo.Prelude.{◌≡◌, refl, true, none, some, [], ◌∷◌, str_eq, if◌then◌else◌}
use mcp_odoo.Prelude.Int.{pos}
use mcp_odoo.Prelude.Text.{strip, split_on, before_suffix}
use mcp_odoo.Json.{text, Fields, end, field}
use mcp_odoo.Json.Entries.{remove_field}
use mcp_odoo.Write.Host.{Host, str}
use mcp_odoo.Write.Uploads.{
  Disk, outside_roots, no_roots, given_twice, configured_cap, max_attachment_upload_bytes,
  max_attachment_bytes, resolved_roots, configured_roots, is_relative_to, restrict_path,
  restrict_all, restrict_under, restrict_attachment_upload_path, restrict_addons_paths,
  read_attachment_source_file, path_keys, upload_bytes, resolve_keys,
  resolve_binary_from_path_fields,
}
use mcp_odoo.Write.Uploads.Confined.{IsResolved, resolve_binary_from_path_fields-IsResolved}
use mcp_odoo.Write.Uploads.Paths.{AllWithin, restrict_addons_paths-AllWithin}

-- a disk whose paths have a folder and a name
abbrev disk : Disk
disk = record {
  env = λ name.
      if str_eq name "ODOO_MCP_MAX_ATTACHMENT_UPLOAD_BYTES"
      then some "99999999"
      else some "srv/up:";
  to_int = λ s. if str_eq s "99999999" then some (pos 99999999) else none;
  resolve = split_on b'/';
  open_file = λ _. some (record { is_regular = true; size = 3; bytes = 1 ∷ 2 ∷ 3 ∷ [] });
  fingerprint = λ _. "sha256:abc:3";
  base64 = λ _. "AQID";
}

abbrev host : Host
host = record { digest = λ _. "?"; render = λ _. "?" }

abbrev values : Fields
values = field "name" (text "CV") (field "datas_from_path" (text "srv/up/cv.pdf") end)

program : Unit {0}
unfolding strip str split_on before_suffix remove_field configured_cap max_attachment_upload_bytes
    max_attachment_bytes resolved_roots configured_roots is_relative_to restrict_path restrict_all
    restrict_under restrict_attachment_upload_path restrict_addons_paths read_attachment_source_file
    path_keys upload_bytes resolve_keys resolve_binary_from_path_fields
program = tt

runs :
    (resolve_binary_from_path_fields disk host values
      ≡ ok (
        field "name" (text "CV") (field "datas" (text "sha256:abc:3") end),
        ("datas", "AQID") ∷ [],
      ))
    × (resolve_binary_from_path_fields disk host
          (field "datas_from_path" (text "srv/upper/cv.pdf") end)
        ≡ err outside_roots)
    × (resolve_binary_from_path_fields disk host (field "datas" (text "") values) ≡ err given_twice)
    × (resolve_binary_from_path_fields (record disk { env = λ _. none }) host values ≡ err no_roots)
    × (max_attachment_upload_bytes disk ≡ 16777216)
    × (max_attachment_bytes disk ≡ 1048576)
unfolding program
runs = (refl, refl, refl, refl, refl, refl)

resolve_binary_from_path_fields-IsResolved_example :
    IsResolved disk values
      (field "name" (text "CV") (field "datas" (text "sha256:abc:3") end))
      "datas"
      (some "AQID")
unfolding program
resolve_binary_from_path_fields-IsResolved_example =
    resolve_binary_from_path_fields-IsResolved disk host values
      (field "name" (text "CV") (field "datas" (text "sha256:abc:3") end)) (("datas", "AQID") ∷ [])
      "datas" (refl, (refl, tt)) refl

restrict_addons_paths-AllWithin_sample :
    AllWithin (("srv" ∷ "up" ∷ []) ∷ []) (("srv" ∷ "up" ∷ "x" ∷ []) ∷ [])
unfolding program
restrict_addons_paths-AllWithin_sample =
    restrict_addons_paths-AllWithin disk ("srv/up/x" ∷ []) (("srv" ∷ "up" ∷ "x" ∷ []) ∷ []) refl
