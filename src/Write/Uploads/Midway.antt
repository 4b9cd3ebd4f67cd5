-- ===== src/Write/Uploads/Midway.antt =====
-- The invariant of the loop of `_resolve_binary_from_path_fields`.
use mcp_odoo.Prelude.{
  ℕ, String, ◌≡◌, refl, Bool-cases, true, false, some, List, ◌∷◌, str_eq, if◌then◌else◌, arith,
  eq_iff, eq_refl, some_inj, inl, inr, ◌∙◌, sym,
}
use mcp_odoo.Prelude.Dict
use mcp_odoo.Prelude.Dict.{Dict, contains}
use mcp_odoo.Prelude.Dict.Entries.{IsKeyed}
use mcp_odoo.Json.{text, Fields, get_field, put_field}
use mcp_odoo.Json.Entries.{has_key, remove_field, get_field-put_field, get_field-remove_field}
use mcp_odoo.Write.Uploads.{Disk}
use mcp_odoo.Write.Uploads.Paths.{IsRead}

-- the content is that of a readable file, and the values hold its fingerprint
abbrev pub IsUpload : Disk → Fields → String → String → Type 0
IsUpload disk values name content =
    (bytes : List ℕ) × IsRead disk bytes
    × (content ≡ disk.base64 bytes)
    × (get_field name values ≡ some (text (disk.fingerprint bytes)))

-- Where the loop stands: what is resolved is in the values, and the keys to come are in the values
-- and among what is resolved none of them is.
pub record IsMidway (disk : Disk) (keys : Dict String) (values : Fields) (resolved : Dict String)
    : Type 0 where
  pub uploads : (f c : String) → Dict.get f resolved ≡ some c → IsUpload disk values f c
  pub apart :
      (f c k r : String)
      → Dict.get f resolved ≡ some c
      → Dict.get k keys ≡ some r
      → str_eq f k ≡ false
  pub present : (k r : String) → Dict.get k keys ≡ some r → has_key k values ≡ true
  pub keyed : IsKeyed keys

differ :
    (a b : String) (fs : Fields) → has_key a fs ≡ true → has_key b fs ≡ false → str_eq a b ≡ false
differ a b fs here missing = ground (arith, eq_iff a b)

module _ (disk : Disk) (key real : String) (bytes : List ℕ) where
  abbrev pub next_values : Fields → Fields
  next_values values = put_field real (text (disk.fingerprint bytes)) (remove_field key values)

  abbrev pub next_resolved : Dict String → Dict String
  next_resolved resolved = Dict.put real (disk.base64 bytes) resolved

  pub get_field-next :
      (values : Fields) (j : String)
      → str_eq key j ≡ false
      → get_field j (next_values values)
        ≡ (if str_eq real j then some (text (disk.fingerprint bytes)) else get_field j values)
  get_field-next values j other =
      get_field-put_field real j (text (disk.fingerprint bytes)) (remove_field key values)
      ∙ rw (get_field-remove_field key j values other) refl

  module _ (keys : Dict String) (values : Fields) (resolved : Dict String)
      (m : IsMidway disk ((key, real) ∷ keys) values resolved) (free : has_key real values ≡ false)
      (read : IsRead disk bytes) where
    key_first : Dict.get key ((key, real) ∷ keys) ≡ some real
    key_first = rw (eq_refl key) refl

    -- the keys to come are others
    later_other : (k r : String) → Dict.get k keys ≡ some r → str_eq key k ≡ false
    later_other k r to_come = ground (arith, eq_iff key k, m.keyed.0)

    later : (k r : String) → Dict.get k keys ≡ some r → Dict.get k ((key, real) ∷ keys) ≡ some r
    later k r to_come = rw (later_other k r to_come) to_come

    -- what the loop has resolved after this step, it resolved in this step or before
    earlier :
        (f c : String)
        → str_eq real f ≡ false
        → Dict.get f (next_resolved resolved) ≡ some c
        → Dict.get f resolved ≡ some c
    earlier f c other got =
        sym (Dict.get-put real f (disk.base64 bytes) resolved ∙ rw other refl) ∙ got

    uploads_next :
        (f c : String)
        → Dict.get f (next_resolved resolved) ≡ some c
        → IsUpload disk (next_values values) f c
    uploads_next f c got = elim (Bool-cases (str_eq real f)) [
      | inl same ↦
          let content : some (disk.base64 bytes) ≡ some c =
            sym (Dict.get-put real f (disk.base64 bytes) resolved ∙ rw same refl) ∙ got in
          let kept : str_eq key f ≡ false = ground (
            arith,
            differ key real values (m.present key real key_first) free,
            eq_iff real f,
            eq_iff key f,
            eq_iff key real,
            same,
          ) in
          (bytes, read, sym (some_inj content), get_field-next values f kept ∙ rw same refl)
      | inr other ↦
          let before = earlier f c other got in
          let (bytes', read', content, held) = m.uploads f c before in
          let kept : str_eq key f ≡ false =
            ground (arith, m.apart f c key real before key_first, eq_iff f key, eq_iff key f) in
          (bytes', read', content, get_field-next values f kept ∙ rw other held)
    ]

    apart_next :
        (f c k r : String)
        → Dict.get f (next_resolved resolved) ≡ some c
        → Dict.get k keys ≡ some r
        → str_eq f k ≡ false
    apart_next f c k r got to_come = elim (Bool-cases (str_eq real f)) [
      | inl same ↦ ground (
        arith,
        differ k real values (m.present k r (later k r to_come)) free,
        eq_iff real f,
        eq_iff f k,
        eq_iff k real,
        same,
      )
      | inr other ↦ m.apart f c k r (earlier f c other got) (later k r to_come)
    ]

    present_next : (k r : String) → Dict.get k keys ≡ some r → has_key k (next_values values) ≡ true
    present_next k r to_come = ground (
      arith,
      get_field-next values k (later_other k r to_come),
      m.present k r (later k r to_come),
    )

    pub IsMidway-step : IsMidway disk keys (next_values values) (next_resolved resolved)
    IsMidway-step = record {
      uploads = uploads_next;
      apart = apart_next;
      present = present_next;
      keyed = m.keyed.1;
    }
