-- ===== src/Write/Uploads/Paths.antt =====
-- Which files an upload or a scan may read.
use mcp_odoo.Prelude.Result.{ok_inj, ok, >>=-eq-ok}
use mathlib.Core.Path.{subst}
use mcp_odoo.Prelude.{
  All, some_inj, ℕ, ◌≤◌, String, ◌≡◌, true, some, Option-cases, inl, inr, List, [], ◌∷◌, arith,
}
use mcp_odoo.Prelude.Int.{ℤ, pos, negsuc}
use mcp_odoo.Json.{Value}
use mcp_odoo.Write.Host.{Host, str}
use mcp_odoo.Write.Uploads.{
  OpenFile, Disk, is_within, restrict_path, upload_roots, restrict_attachment_upload_path,
  read_attachment_source_file, max_attachment_upload_bytes, attachment_bytes_hard_cap,
  default_max_attachment_upload_bytes, at_least_one, min_ℤ, configured_cap, upload_bytes,
  restrict_all, restrict_under, restrict_addons_paths, addons_roots,
}

-- no larger than the operator's cap, at least one byte, and than the hard cap
abbrev pub IsWithinCaps : Disk → ℕ → Type 0
IsWithinCaps disk size =
    (size ≤ attachment_bytes_hard_cap)
    × (size
        ≤ at_least_one (
            configured_cap disk "ODOO_MCP_MAX_ATTACHMENT_UPLOAD_BYTES"
              default_max_attachment_upload_bytes))

-- the bytes are those of a regular file under a root, no larger than the caps
abbrev pub IsRead : Disk → List ℕ → Type 0
IsRead disk bytes =
    (path : List String) × (file : OpenFile) × (is_within (upload_roots disk) path ≡ true)
    × (disk.open_file path ≡ some file)
    × (file.is_regular ≡ true)
    × IsWithinCaps disk file.size
    × (bytes ≡ file.bytes)

restrict_path-is_within :
    (disk : Disk) (roots : List (List String)) (raw : String) (path : List String)
    → restrict_path disk roots raw ≡ ok path
    → is_within roots path ≡ true
unfolding restrict_path
restrict_path-is_within disk [] raw path h = cc h
restrict_path-is_within disk (root ∷ roots) raw path h = ground (arith, h)

at_least_one-min_ℤ :
    (n : ℤ) → at_least_one (min_ℤ n attachment_bytes_hard_cap) ≤ attachment_bytes_hard_cap
at_least_one-min_ℤ (pos n) = omega arith
at_least_one-min_ℤ (negsuc n) = omega arith

pub max_attachment_upload_bytes-le :
    (disk : Disk) → max_attachment_upload_bytes disk ≤ attachment_bytes_hard_cap
unfolding max_attachment_upload_bytes
max_attachment_upload_bytes-le disk =
    at_least_one-min_ℤ (
      configured_cap disk "ODOO_MCP_MAX_ATTACHMENT_UPLOAD_BYTES"
        default_max_attachment_upload_bytes)

at_least_one-min_ℤ_le : (n : ℤ) (cap : ℕ) → at_least_one (min_ℤ n cap) ≤ at_least_one n
at_least_one-min_ℤ_le (pos n) cap = omega arith
at_least_one-min_ℤ_le (negsuc n) cap = omega arith

IsWithinCaps-upload :
    (disk : Disk) (size : ℕ) → size ≤ max_attachment_upload_bytes disk → IsWithinCaps disk size
unfolding max_attachment_upload_bytes
IsWithinCaps-upload disk size h =
    let n =
      configured_cap disk "ODOO_MCP_MAX_ATTACHMENT_UPLOAD_BYTES"
        default_max_attachment_upload_bytes in
    (
      omega (arith, h, at_least_one-min_ℤ n),
      omega (arith, h, at_least_one-min_ℤ_le n attachment_bytes_hard_cap),
    )

read_attachment_source_file-IsRead :
    (disk : Disk) (path : List String) (bytes : List ℕ)
    → is_within (upload_roots disk) path ≡ true
    → read_attachment_source_file disk path (max_attachment_upload_bytes disk) ≡ ok bytes
    → IsRead disk bytes
unfolding read_attachment_source_file
read_attachment_source_file-IsRead disk path bytes trusted h =
    elim (Option-cases (disk.open_file path)) [
      | inl missing ↦ cc (rw (read_attachment_source_file, missing) at h)
      | inr (file, opened) ↦
          let read = rw (read_attachment_source_file, opened) at h in
          (
            path,
            file,
            trusted,
            opened,
            ground (arith, read),
            IsWithinCaps-upload disk file.size (ground (arith, read)),
            ground (arith, read),
          )
    ]

pub upload_bytes-IsRead :
    (disk : Disk) (host : Host) (v : Value) (bytes : List ℕ)
    → upload_bytes disk host v ≡ ok bytes
    → IsRead disk bytes
unfolding upload_bytes restrict_attachment_upload_path
upload_bytes-IsRead disk host v bytes h =
    let (path, restricted, read) =
      >>=-eq-ok (restrict_attachment_upload_path disk (str host v)) _ h in
    read_attachment_source_file-IsRead disk path bytes
      (restrict_path-is_within disk (upload_roots disk) (str host v) path restricted) read

-- every path is under a root
abbrev pub AllWithin : List (List String) → List (List String) → Type 0
AllWithin roots paths = All (λ path. is_within roots path ≡ true) paths

restrict_all-AllWithin :
    (disk : Disk) (roots : List (List String)) (raws : List String) (paths : List (List String))
    → restrict_all disk roots raws ≡ ok paths
    → AllWithin roots paths
unfolding restrict_all
restrict_all-AllWithin disk roots [] paths h = subst (AllWithin roots) (ok_inj h) tt
restrict_all-AllWithin disk roots (raw ∷ raws) paths h =
    let (path, first, rest) = >>=-eq-ok (restrict_path disk roots raw) _ h in
    let (later, others, last) = >>=-eq-ok (restrict_all disk roots raws) _ rest in
    subst (AllWithin roots) (ok_inj last) (
      restrict_path-is_within disk roots raw path first,
      restrict_all-AllWithin disk roots raws later others,
    )

restrict_under-AllWithin :
    (disk : Disk) (roots : List (List String)) (raws : List String) (paths : List (List String))
    → restrict_under disk roots raws ≡ ok (some paths)
    → AllWithin roots paths
unfolding restrict_under
restrict_under-AllWithin disk [] raws paths h = cc h
restrict_under-AllWithin disk (root ∷ roots) raws paths h =
    let (found, restricted, last) = >>=-eq-ok (restrict_all disk (root ∷ roots) raws) _ h in
    subst (AllWithin (root ∷ roots)) (some_inj (ok_inj last))
      (restrict_all-AllWithin disk (root ∷ roots) raws found restricted)

-- The paths that a scan of addons may read are under the operator's roots.
pub restrict_addons_paths-AllWithin :
    (disk : Disk) (raws : List String) (paths : List (List String))
    → restrict_addons_paths disk (some raws) ≡ ok (some paths)
    → AllWithin (addons_roots disk) paths
unfolding restrict_addons_paths
restrict_addons_paths-AllWithin disk raws paths h =
    restrict_under-AllWithin disk (addons_roots disk) raws paths h
