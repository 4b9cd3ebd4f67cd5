-- ===== src/Write/Uploads/Confined.antt =====
-- What `_resolve_binary_from_path_fields` puts in the place of the paths.
use mcp_odoo.Prelude.Result.{ok, guard, >>=-eq-ok}
use mcp_odoo.Prelude.{
  ℕ, String, ◌≡◌, refl, Bool, Bool-cases, true, false, not, ◌||◌, Option, Option-cases, none, some,
  List, [], ◌∷◌, str_eq, arith, eq_iff, inl, inr, ◌∙◌, ap, ◌⊎◌, if◌then◌else◌,
}
use mcp_odoo.Prelude.Dict
use mcp_odoo.Prelude.Dict.{Dict, contains}
use mcp_odoo.Prelude.Dict.Entries.{IsKeyed}
use mcp_odoo.Prelude.Text.{before_suffix}
use mathlib.Core.Path.{subst}
use mcp_odoo.Json.{text, Fields, end, field, get_field, get_or_null}
use mcp_odoo.Json.Entries.{
  has_key, IsDict, remove_field, get_field-put_field, get_field-remove_field,
  get_field-remove_field_same, put_field-IsDict, remove_field-IsDict,
}
use mcp_odoo.Write.Host.{Host}
use mcp_odoo.Write.Uploads.{
  Disk, given_twice, from_path_suffix, path_keys, upload_bytes, resolve_keys,
  resolve_binary_from_path_fields,
}
use mcp_odoo.Write.Uploads.Paths.{IsRead, upload_bytes-IsRead}
use mcp_odoo.Write.Uploads.Midway.{
  IsUpload, IsMidway, next_values, next_resolved, get_field-next, IsMidway-step,
}

abbrev pub bases : Dict String → List String
bases [] = []
bases ((key, real) ∷ keys) = real ∷ bases keys

abbrev is_some : Option String → Bool
is_some none = false
is_some (some c) = true

module _ (disk : Disk) (host : Host) (values' : Fields) (resolved' : Dict String) where
  abbrev Resolves : Dict String → Fields → Dict String → Type 0
  Resolves keys values resolved =
      resolve_keys disk host keys values resolved ≡ ok (values', resolved')

  -- a round that does not raise has read a file for a field that was not given
  resolve_keys_step :
      (key real : String) (keys : Dict String) (values : Fields) (resolved : Dict String)
      → Resolves ((key, real) ∷ keys) values resolved
      → (bytes : List ℕ) × (has_key real values ≡ false)
        × IsRead disk bytes
        × Resolves keys
            (next_values disk key real bytes values)
            (next_resolved disk key real bytes resolved)
  unfolding resolve_keys
  resolve_keys_step key real keys values resolved h =
      let (_, free, rest) = >>=-eq-ok (guard (not (has_key real values)) given_twice) _ h in
      let (bytes, uploaded, rest') =
        >>=-eq-ok (upload_bytes disk host (get_or_null key values)) _ rest in
      (
        bytes,
        ground (arith, free),
        upload_bytes-IsRead disk host (get_or_null key values) bytes uploaded,
        rest',
      )

  resolve_keys_end :
      (values : Fields) (resolved : Dict String)
      → Resolves [] values resolved
      → (values' ≡ values) × (resolved' ≡ resolved)
  unfolding resolve_keys
  resolve_keys_end values resolved h = (cc h, cc h)

  IsUpload-resolve_keys :
      (keys : Dict String) (values : Fields) (resolved : Dict String)
      → IsMidway disk keys values resolved
      → Resolves keys values resolved
      → (f c : String) → Dict.get f resolved' ≡ some c
      → IsUpload disk values' f c
  IsUpload-resolve_keys [] values resolved m h f c got =
      let (same, same') = resolve_keys_end values resolved h in
      rw same (m.uploads f c (rw same' at got))
  IsUpload-resolve_keys ((key, real) ∷ keys) values resolved m h f c got =
      let (bytes, free, read, rest) = resolve_keys_step key real keys values resolved h in
      IsUpload-resolve_keys keys _ _
        (IsMidway-step disk key real bytes keys values resolved m free read) rest f c got

  is_some-resolve_keys :
      (keys : Dict String) (values : Fields) (resolved : Dict String) (f : String)
      → Resolves keys values resolved
      → is_some (Dict.get f resolved') ≡ (is_some (Dict.get f resolved) || contains (bases keys) f)
  is_some-resolve_keys [] values resolved f h =
      ground (arith, (resolve_keys_end values resolved h).1)
  is_some-resolve_keys ((key, real) ∷ keys) values resolved f h =
      let (bytes, free, read, rest) = resolve_keys_step key real keys values resolved h in
      is_some-resolve_keys keys _ _ f rest
      ∙ ground (arith, Dict.get-put real f (disk.base64 bytes) resolved, eq_iff real f)

  get_field-resolve_keys :
      (keys : Dict String) (values : Fields) (resolved : Dict String) (f : String)
      → Resolves keys values resolved
      → contains (bases keys) f ≡ false
      → contains (Dict.keys keys) f ≡ false
      → get_field f values' ≡ get_field f values
  get_field-resolve_keys [] values resolved f h b k =
      ap (get_field f) (resolve_keys_end values resolved h).0
  get_field-resolve_keys ((key, real) ∷ keys) values resolved f h b k =
      let (bytes, free, read, rest) = resolve_keys_step key real keys values resolved h in
      let others : str_eq real f ≡ false = ground (arith, b) in
      get_field-resolve_keys keys _ _ f rest (ground (arith, b)) (ground (arith, k))
      ∙ get_field-next disk key real bytes values f (ground (arith, k))
      ∙ rw others refl

module _ (disk : Disk) (host : Host) (values' : Fields) (resolved' : Dict String) where
  -- a key that is to come, or is gone, and is no field with a path, is gone in the end
  gone-resolve_keys :
      (keys : Dict String) (values : Fields) (resolved : Dict String) (f : String)
      → Resolves disk host values' resolved' keys values resolved
      → IsDict values
      → contains (bases keys) f ≡ false
      → (contains (Dict.keys keys) f ≡ true) ⊎ (get_field f values ≡ none)
      → get_field f values' ≡ none
  gone-resolve_keys [] values resolved f h d b (inl there) = cc there
  gone-resolve_keys [] values resolved f h d b (inr gone) =
      ap (get_field f) (resolve_keys_end disk host values' resolved' values resolved h).0 ∙ gone
  gone-resolve_keys ((key, real) ∷ keys) values resolved f h d b where_ =
      let (bytes, free, read, rest) =
        resolve_keys_step disk host values' resolved' key real keys values resolved h in
      let others : str_eq real f ≡ false = ground (arith, b) in
      let step =
        gone-resolve_keys keys (next_values disk key real bytes values)
          (next_resolved disk key real bytes resolved) f rest
          (put_field-IsDict real _ (remove_field key values) (remove_field-IsDict key values d))
          (ground (arith, b)) in
      let put =
        get_field-put_field real f (text (disk.fingerprint bytes)) (remove_field key values) in
      elim (Bool-cases (str_eq key f)) [
        | inl same ↦ step (
            inr (
              put
              ∙ rw others (
                  subst (λ k. get_field k (remove_field key values) ≡ none) ((eq_iff key f).0 same)
                    (get_field-remove_field_same key values d))))
        | inr other ↦ elim where_ [
          | inl there ↦ step (inl (ground (arith, there, other)))
          | inr gone ↦
              step (inr (put ∙ rw others (get_field-remove_field key f values other ∙ gone)))
        ]
      ]

has_key-path_keys :
    (fs : Fields) (k r : String) → Dict.get k (path_keys fs) ≡ some r → has_key k fs ≡ true
unfolding path_keys
has_key-path_keys end k r h = cc h
has_key-path_keys (field j v fs) k r h = elim (Option-cases (before_suffix from_path_suffix j)) [
  | inl other ↦ ground (arith, has_key-path_keys fs k r (rw (path_keys, other) at h))
  | inr (base, found) ↦
      let h' = rw (path_keys, found) at h in
      elim (Bool-cases (str_eq j k)) [
        | inl same ↦ rw (has_key, same) refl
        | inr else_where ↦ rw (has_key, else_where) (has_key-path_keys fs k r (rw else_where at h'))
      ]
]

path_keys-IsKeyed : (fs : Fields) → IsDict fs → IsKeyed (path_keys fs)
unfolding path_keys
path_keys-IsKeyed end d = tt
path_keys-IsKeyed (field j v fs) d = elim (Option-cases (before_suffix from_path_suffix j)) [
  | inl other ↦ rw (path_keys, other) (path_keys-IsKeyed fs d.1)
  | inr (base, found) ↦
      rw (path_keys, found)
        (
          (elim (Option-cases (Dict.get j (path_keys fs))) [
            | inl missing ↦ missing
            | inr (r, there) ↦ cc (has_key-path_keys fs j r there, d.0)
          ]),
          path_keys-IsKeyed fs d.1,
        )
]

-- what became of a field: it was uploaded, or no path was given for it, and then it is gone if it is
-- itself the key of a path, and as before if not
abbrev pub IsResolved : Disk → Fields → Fields → String → Option String → Type 0
IsResolved disk values values' name (some content) = IsUpload disk values' name content
IsResolved disk values values' name none =
    (contains (bases (path_keys values)) name ≡ false)
    × (get_field name values'
        ≡ (if contains (Dict.keys (path_keys values)) name then none else get_field name values))

-- If the paths of the values are resolved, then each field either has a path, and its content is that
-- of a regular file under one of the operator's roots, no larger than the configured cap and the
-- hard cap, of which the values hold the fingerprint only; or it has none, and then it is the key of
-- a path and is gone, or its value is as before.
pub resolve_binary_from_path_fields-IsResolved :
    (disk : Disk) (host : Host) (values values' : Fields) (resolved : Dict String) (name : String)
    → IsDict values
    → resolve_binary_from_path_fields disk host values ≡ ok (values', resolved)
    → IsResolved disk values values' name (Dict.get name resolved)
unfolding resolve_binary_from_path_fields
resolve_binary_from_path_fields-IsResolved disk host values values' resolved name d h =
    let keys = path_keys values in
    let start : IsMidway disk keys values [] = record {
      uploads = λ f c got. cc got;
      apart = λ f c k r got to_come. cc got;
      present = has_key-path_keys values;
      keyed = path_keys-IsKeyed values d;
    } in
    elim (Option-cases (Dict.get name resolved)) [
      | inr (content, got) ↦
          rw got (
            IsUpload-resolve_keys disk host values' resolved keys values [] start h name content
              got)
      | inl missing ↦
          let untold : contains (bases keys) name ≡ false =
            ground (arith, is_some-resolve_keys disk host values' resolved keys values [] name h) in
          rw missing (
            untold,
            (elim (Bool-cases (contains (Dict.keys keys) name)) [
              | inl path ↦ rw path (
                  gone-resolve_keys disk host values' resolved keys values [] name h d untold
                    (inl path))
              | inr plain ↦ rw plain (
                  get_field-resolve_keys disk host values' resolved keys values [] name h untold
                    plain)
            ]),
          )
    ]
