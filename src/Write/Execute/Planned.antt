-- ===== src/Write/Execute/Planned.antt =====
-- The call planned from an approval is the one that the preview showed.
use mcp_odoo.Prelude.Result.{ok}
use mcp_odoo.Prelude.{
  ℕ, String, ◌≡◌, refl, ap, true, false, Option, none, some, List, [], ◌∷◌, arith, str_eq, eq_iff,
  inl, inr, if◌then◌else◌, Bool-cases,
}
use mcp_odoo.Prelude.Dict.{Dict}
use mcp_odoo.Prelude.Int.{ℤ}
use mcp_odoo.Json.{Value, text, list, dict, Items, Fields, get_field}
use mcp_odoo.Write.Host.{str, Call}
use mcp_odoo.Write.Names.{is_model_name}
use mcp_odoo.Write.Preview.{
  Payload, Request, canonical_payload, ids_items, ids_or_empty, fields_or_empty, text_or,
  method_args, write_execute_method_args, approval_fields, is_write_operation, normalized_operation,
}
use mcp_odoo.Prelude.Text.{strip, lower}
use mcp_odoo.Write.Approvals.{ValidationRecord, write_approval_payload, stamped}
use mcp_odoo.Write.Approvals.Stored.{or_else-list, or_else-dict, payload-stamped, parts-stamped}
use mcp_odoo.Write.Execute.{
  Deployment, to_ids, plan_args, with_binaries, call_args, client_name, plan_call,
}

to_ids-ids_items : (ids : List ℤ) → to_ids (ids_items ids) ≡ ok ids
unfolding to_ids
to_ids-ids_items [] = refl
to_ids-ids_items (i ∷ is) = rw (to_ids-ids_items is)

abbrev pub batch_value : Option Items → Option Value
batch_value entries = elim entries [ none ↦ none | some vs ↦ some (list vs) ]

module _ (p : Payload) (values context : Fields) (ids : List ℤ) where
  call_args-method_args :
      (entries : Option Items) (op : String)
      → p.values ≡ dict values
      → p.record_ids ≡ list (ids_items ids)
      → p.values_list ≡ batch_value entries
      → is_write_operation op ≡ true
      → call_args op values (batch_value entries) ids ≡ ok (method_args op p)
  unfolding call_args method_args
  call_args-method_args none op v i e w =
      rw (v, i, e) (ground (arith, or_else-dict values, or_else-list (ids_items ids)))
  call_args-method_args (some vs) op v i e w =
      rw (v, i, e)
        (ground (arith, or_else-dict values, or_else-list (ids_items ids), or_else-list vs))

  plan_args-method_args :
      (approval : Fields) (r : ValidationRecord) (entries : Option Items) (op : String)
      (given : Fields)
      → (write_approval_payload approval).values_list ≡ batch_value entries
      → get_field "values" approval ≡ some (dict given)
      → get_field "record_ids" approval ≡ some (list (ids_items ids))
      → get_field "context" approval ≡ some (dict context)
      → p.values ≡ dict values
      → p.record_ids ≡ list (ids_items ids)
      → p.values_list ≡ batch_value entries
      → with_binaries r.resolved_binary_values given ≡ values
      → is_write_operation op ≡ true
      → plan_args approval r op ≡ ok (method_args op p, context)
  unfolding plan_args
  plan_args-method_args approval r entries op given same v i c pv pi pe filled w = ground (
    arith,
    or_else-dict given,
    or_else-dict context,
    or_else-list (ids_items ids),
    to_ids-ids_items ids,
    call_args-method_args entries op pv pi pe w,
  )

write_operation_stays : (op : String) → is_write_operation op ≡ true → lower (strip op) ≡ op
unfolding lower strip
write_operation_stays op w = elim (Bool-cases (str_eq op "create")) [
  | inl t ↦ rw ((eq_iff op "create").0 t)
  | inr f ↦ elim (Bool-cases (str_eq op "write")) [
    | inl t ↦ rw ((eq_iff op "write").0 t)
    | inr g ↦ rw ((eq_iff op "unlink").0 (ground arith))
  ]
]

-- the call that a request asks for: the one that its preview shows, to the instance it names
abbrev pub requested_call : Deployment → Request → Call
requested_call d r =
    let name = text_or r.instance "default" in
    let shown = write_execute_method_args d.host (canonical_payload r) in
    record {
      instance = if str_eq name d.default_instance then none else some name;
      model = r.model;
      method = shown.method;
      args = shown.args;
      kwargs = shown.kwargs;
    }

-- the request with the contents of its uploads in the place of their fingerprints
abbrev pub filled : Dict String → Request → Request
filled binaries r = record r { values = some (with_binaries binaries (fields_or_empty r.values)) }

client_of_name :
    (d : Deployment) (approval : Fields) (name : String)
    → get_field "instance" approval ≡ some (text name)
    → str_eq name "" ≡ false
    → client_name d approval ≡ (if str_eq name d.default_instance then none else some name)
unfolding client_name str
client_of_name d approval name found named = ground arith

text_or_named : (s : String) → str_eq (text_or s "default") "" ≡ false
text_or_named s = elim (Bool-cases (str_eq s "")) [ inl t ↦ rw t | inr f ↦ rw f f ]

module _ (d : Deployment) (r : Request) (token : String) (now : ℕ) where
  abbrev sent_back : Fields
  sent_back = stamped (approval_fields (canonical_payload r) token) now

  client_name-stamped : client_name d sent_back ≡ (
      if str_eq (text_or r.instance "default") d.default_instance
      then none
      else some (text_or r.instance "default"))
  unfolding client_name str
  client_name-stamped =
      client_of_name d sent_back (text_or r.instance "default") (parts-stamped r token d.host now).5
        (text_or_named r.instance)

  plan_args-stamped :
      (rec : ValidationRecord)
      → is_write_operation (normalized_operation r) ≡ true
      → let full = filled rec.resolved_binary_values r in
        plan_args sent_back rec (normalized_operation r)
        ≡ ok (
          method_args (normalized_operation r) (canonical_payload full),
          fields_or_empty r.context,
        )
  plan_args-stamped rec w =
      let parts = parts-stamped r token d.host now in
      let same = payload-stamped r token now in
      let full = filled rec.resolved_binary_values r in
      unfold canonical_payload in
      plan_args-method_args (canonical_payload full) (fields_or_empty full.values)
        (fields_or_empty r.context) (ids_or_empty r.record_ids) sent_back rec r.values_list
        (normalized_operation r) (fields_or_empty r.values)
        (ap (λ (q : Payload). q.values_list) same) parts.2 parts.3 parts.4 refl refl refl refl w

  pub plan_call-stamped :
      (rec : ValidationRecord)
      → is_model_name r.model ≡ true
      → is_write_operation (normalized_operation r) ≡ true
      → plan_call d sent_back rec ≡ ok (requested_call d (filled rec.resolved_binary_values r))
  unfolding plan_call normalized_operation
  plan_call-stamped rec named w =
      let parts = parts-stamped r token d.host now in
      rw (parts.0, parts.1, write_operation_stays _ w, named, w, client_name-stamped)
        (rw (plan_args-stamped rec w) (
          unfold write_execute_method_args canonical_payload str in
          ground (arith, or_else-dict (fields_or_empty r.context))))
