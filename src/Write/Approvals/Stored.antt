-- ===== src/Write/Approvals/Stored.antt =====
-- An approval that a preview makes is read back as its own payload, and its token verifies.
use mcp_odoo.Prelude.{ℕ, String, ◌≡◌, refl, true, Option, none, some, arith, eq_iff, eq_refl}
use mcp_odoo.Json.{text, list, dict, Items, nil, cons, Fields, end, field, get_field, or_else}
use mcp_odoo.Write.Host.{Host, str}
use mcp_odoo.Write.Preview.{
  Payload, Request, canonical_payload, approval_fields, ids_items, ids_or_empty, fields_or_empty,
  text_or, normalized_operation, build_write_preview_report,
}
use mcp_odoo.Write.Approvals.{
  write_approval_payload, token_of, text_at, verify_write_approval, stamped,
}

pub or_else-list : (vs : Items) → or_else (some (list vs)) (list nil) ≡ list vs
or_else-list nil = refl
or_else-list (cons v vs) = refl

pub or_else-dict : (fs : Fields) → or_else (some (dict fs)) (dict end) ≡ dict fs
or_else-dict end = refl
or_else-dict (field k v fs) = refl

pub or_else-text :
    (s : String)
    → or_else (some (text (text_or s "default"))) (text "default") ≡ text (text_or s "default")
or_else-text s = ground (arith, eq_iff s "")

-- the payload of a preview, over its parts
abbrev made : String → String → Items → Fields → Fields → String → Option Items → Payload
made model operation ids values context instance entries = record {
  model = text model;
  operation = text operation;
  record_ids = list ids;
  values = dict values;
  context = dict context;
  instance = text (text_or instance "default");
  values_list = elim entries [ none ↦ none | some vs ↦ some (list vs) ];
}

module _ (m op : String) (ids : Items) (values context : Fields) (i token : String) where
  payload-made :
      (entries : Option Items)
      → write_approval_payload (approval_fields (made m op ids values context i entries) token)
        ≡ made m op ids values context i entries
  unfolding write_approval_payload
  payload-made none =
      cc (or_else-list ids, or_else-dict values, or_else-dict context, or_else-text i)
  payload-made (some vs) =
      cc (or_else-list ids, or_else-dict values, or_else-dict context, or_else-text i)

  payload_of_made :
      (entries : Option Items) (now : ℕ)
      → write_approval_payload
          (stamped (approval_fields (made m op ids values context i entries) token) now)
        ≡ made m op ids values context i entries
  unfolding write_approval_payload stamped
  payload_of_made none now =
      cc (or_else-list ids, or_else-dict values, or_else-dict context, or_else-text i)
  payload_of_made (some vs) now =
      cc (or_else-list ids, or_else-dict values, or_else-dict context, or_else-text i)

  token-made :
      (host : Host) (entries : Option Items)
      → token_of host (approval_fields (made m op ids values context i entries) token) ≡ token
  unfolding token_of str
  token-made host none = refl
  token-made host (some vs) = refl

  token_of-made :
      (host : Host) (entries : Option Items) (now : ℕ)
      → token_of host (stamped (approval_fields (made m op ids values context i entries) token) now)
        ≡ token
  unfolding token_of str stamped
  token_of-made host none now = refl
  token_of-made host (some vs) now = refl

  parts_of_made :
      (host : Host) (entries : Option Items) (now : ℕ)
      → let a = stamped (approval_fields (made m op ids values context i entries) token) now in
        (text_at host "model" a ≡ m)
        × (text_at host "operation" a ≡ op)
        × (get_field "values" a ≡ some (dict values))
        × (get_field "record_ids" a ≡ some (list ids))
        × (get_field "context" a ≡ some (dict context))
        × (get_field "instance" a ≡ some (text (text_or i "default")))
  unfolding text_at str stamped
  parts_of_made host none now = (refl, refl, refl, refl, refl, refl)
  parts_of_made host (some vs) now = (refl, refl, refl, refl, refl, refl)

module _ (r : Request) (token : String) where
  abbrev op : String
  op = normalized_operation r

  -- Read back by `write_approval_payload`, the approval of a preview is the payload it was made of.
  pub payload-approval :
      write_approval_payload (approval_fields (canonical_payload r) token) ≡ canonical_payload r
  unfolding canonical_payload
  payload-approval = payload-made r.model op _ _ _ r.instance token r.values_list

  pub payload-stamped :
      (now : ℕ)
      → write_approval_payload (stamped (approval_fields (canonical_payload r) token) now)
        ≡ canonical_payload r
  unfolding canonical_payload
  payload-stamped now = payload_of_made r.model op _ _ _ r.instance token r.values_list now

  pub token-approval :
      (host : Host) → token_of host (approval_fields (canonical_payload r) token) ≡ token
  unfolding canonical_payload
  token-approval host = token-made r.model op _ _ _ r.instance token host r.values_list

  pub token-stamped :
      (host : Host) (now : ℕ)
      → token_of host (stamped (approval_fields (canonical_payload r) token) now) ≡ token
  unfolding canonical_payload
  token-stamped host now = token_of-made r.model op _ _ _ r.instance token host r.values_list now

  pub parts-stamped :
      (host : Host) (now : ℕ)
      → let a = stamped (approval_fields (canonical_payload r) token) now in
        (text_at host "model" a ≡ r.model)
        × (text_at host "operation" a ≡ normalized_operation r)
        × (get_field "values" a ≡ some (dict (fields_or_empty r.values)))
        × (get_field "record_ids" a ≡ some (list (ids_items (ids_or_empty r.record_ids))))
        × (get_field "context" a ≡ some (dict (fields_or_empty r.context)))
        × (get_field "instance" a ≡ some (text (text_or r.instance "default")))
  unfolding canonical_payload
  parts-stamped host now = parts_of_made r.model op _ _ _ r.instance token host r.values_list now

-- Whatever the request, the approval that `build_write_preview_report` returns passes
-- `verify_write_approval`.
pub verify-preview :
    (host : Host) (r : Request)
    → verify_write_approval host (build_write_preview_report host r).approval ≡ true
unfolding verify_write_approval build_write_preview_report
verify-preview host r = rw (token-approval, payload-approval) (eq_refl _)
