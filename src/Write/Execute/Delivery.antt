-- ===== src/Write/Execute/Delivery.antt =====
-- The whole path: what was validated is what is sent.
use mcp_odoo.Prelude.Result.{ok}
use package.text.Mathlib.TextLemmas.{append-eq-nil_iff}
use mcp_odoo.Prelude.{
  ℕ, ◌+◌, ◌≤◌, String, ◌≡◌, ◌≢◌, refl, true, false, Option, none, some, List, [], ◌∷◌, ◌++◌, arith,
  str_eq, eq_iff, eq_refl, inl, inr, Bool-cases,
}
use mcp_odoo.Prelude.Int.{ℤ}
use mcp_odoo.Json.{Value, text, dict, Items, nil, Fields}
use mcp_odoo.Write.Host.{Host, Call, returned}
use mcp_odoo.Write.Names.{is_model_name}
use mcp_odoo.Write.Preview.{
  Request, canonical_payload, ids_items, ids_or_empty, fields_or_empty, approval_fields,
  is_write_operation, normalized_operation, build_approval_token, payload_fields,
  build_write_preview_report, preview_issues,
}
use mcp_odoo.Write.Execute.Gates.{IsAuthorised, IsAuthorised-check_gates}
use mcp_odoo.Write.Preview.WellFormed.{has_error-append, preview-IsAcceptable}
use mcp_odoo.Write.Validate.{validate_write_report, metadata_findings}
use mcp_odoo.Prelude.Dict
use mcp_odoo.Prelude.Dict.{Dict, get-put}
use mcp_odoo.Json.Equality.{AreDistinct, HaveDistinct, eq_value_refl}
use mcp_odoo.Write.Approvals.{
  App, stamped, register_write_approval, Registered, new_record, sweep_expired_write_approvals,
  verify_write_approval,
}
use mcp_odoo.Write.Approvals.Stored.{
  payload-approval, payload-stamped, token-approval, token-stamped,
}
use mcp_odoo.Write.Execute.{
  plan_call, Deployment, eq_payload, writes_enabled, run_call, execute_approved_write,
}
use mcp_odoo.Write.Execute.Planned.{requested_call, filled, plan_call-stamped, batch_value}

pub AreDistinct-ids_items : (ids : List ℤ) → AreDistinct (ids_items ids)
AreDistinct-ids_items [] = tt
AreDistinct-ids_items (i ∷ is) = (tt, AreDistinct-ids_items is)

abbrev pub entries_or_nil : Option Items → Items
entries_or_nil none = nil
entries_or_nil (some vs) = vs

-- the dicts that a caller sends have no key twice
pub record IsWellKeyed (r : Request) : Type 0 where
  pub values : HaveDistinct (fields_or_empty r.values)
  pub context : HaveDistinct (fields_or_empty r.context)
  pub entries : AreDistinct (entries_or_nil r.values_list)

eq_payload_self :
    (r : Request) → IsWellKeyed r → eq_payload (canonical_payload r) (canonical_payload r) ≡ true
unfolding eq_payload canonical_payload
eq_payload_self r k = go r.values_list k.entries
  where
    ids : AreDistinct (ids_items (ids_or_empty r.record_ids))
    ids = AreDistinct-ids_items (ids_or_empty r.record_ids)

    go :
        (entries : Option Items)
        → AreDistinct (entries_or_nil entries)
        → eq_payload
            (record (canonical_payload r) { values_list = batch_value entries })
            (record (canonical_payload r) { values_list = batch_value entries })
          ≡ true
    go none e =
        eq_value_refl _
          (refl, tt, (refl, tt, (refl, ids, (refl, k.values, (refl, k.context, (refl, tt, tt))))))
    go (some vs) e = eq_value_refl _ (
      refl,
      tt,
      (refl, tt, (refl, ids, (refl, k.values, (refl, k.context, (refl, tt, (refl, e, tt)))))),
    )

not_nil : ◌≢◌ {A = String} "odoo-write:" ""
not_nil = ground (arith, eq_iff "odoo-write:" "")

token_named : (host : Host) (v : Value) → str_eq (build_approval_token host v) "" ≡ false
unfolding build_approval_token
token_named host v = elim (Bool-cases (str_eq (build_approval_token host v) "")) [
  | inl t ↦ absurd (not_nil (((append-eq-nil_iff {p = "odoo-write:"}).0 ((eq_iff _ "").0 t)).0))
  | inr f ↦ f
]

-- what a successful validation leaves: the record in the store, and the stamped approval
module _ (d : Deployment) (app : App) (r : Request) (metadata : Option Fields)
    (binaries : Dict String) (now : ℕ) where
  abbrev the_token : String
  the_token = build_approval_token d.host (dict (payload_fields (canonical_payload r)))

  abbrev shown : Fields
  shown = approval_fields (canonical_payload r) the_token

  abbrev registered : Registered
  registered =
      register_write_approval d.host app (validate_write_report d.host r metadata) binaries now

  abbrev stored_app : App
  stored_app = record app {
    write_approvals =
        Dict.put the_token (new_record shown binaries now)
          (sweep_expired_write_approvals app now).write_approvals;
  }

  register-validated :
      (validate_write_report d.host r metadata).success ≡ true
      → registered ≡ record { app = stored_app; stored = true; approval = some (stamped shown now) }
  unfolding register_write_approval validate_write_report build_write_preview_report
      sweep_expired_write_approvals
  register-validated valid = rw (valid, token-approval r the_token d.host, token_named) refl

  stored_IsAuthorised :
      (later : ℕ)
      → IsWellKeyed r
      → writes_enabled d.env ≡ true
      → later ≤ now + 600
      → IsAuthorised d stored_app (stamped shown now) true later (new_record shown binaries now)
  unfolding verify_write_approval new_record
  stored_IsAuthorised later keyed enabled fresh = record {
    token = rw (token-stamped, payload-stamped) (eq_refl the_token);
    stored = rw (token-stamped, get-put) (rw (eq_refl the_token));
    fresh = fresh;
    same = rw (payload-stamped, payload-approval) (eq_payload_self r keyed);
    confirmed = refl;
    enabled = enabled;
  }

  the_binaries : (new_record shown binaries now).resolved_binary_values ≡ binaries
  unfolding new_record
  the_binaries = refl

  -- the call that the request asks for, with the contents of its uploads
  abbrev pub delivered_call : Call
  delivered_call = requested_call d (filled binaries r)

  plan_call-delivered :
      is_model_name r.model ≡ true
      → is_write_operation (normalized_operation r) ≡ true
      → plan_call d (stamped shown now) (new_record shown binaries now) ≡ ok delivered_call
  unfolding new_record
  plan_call-delivered named w =
      plan_call-stamped d r the_token now (new_record shown binaries now) named w

  run_call_answered :
      (call : Call) (approval : Fields) (v : Value)
      → d.connect call.instance ≡ none
      → d.respond app.calls call ≡ returned v
      → ((run_call d stored_app approval call).1 ≡ ok v)
        × ((run_call d stored_app approval call).0.calls ≡ app.calls ++ call ∷ [])
  unfolding run_call
  run_call_answered call approval v reached answered = ground arith

  preview_of_validated :
      (validate_write_report d.host r metadata).success ≡ true
      → (build_write_preview_report d.host r).success ≡ true
  unfolding validate_write_report build_write_preview_report
  preview_of_validated valid =
      ground
        (arith, has_error-append (preview_issues r) (metadata_findings d.host r metadata).issues)

  validated_operation :
      (validate_write_report d.host r metadata).success ≡ true
      → is_write_operation (normalized_operation r) ≡ true
  validated_operation valid = elim ((preview-IsAcceptable d.host r).0 validated_preview) [
    | inl (e, _) ↦ rw e
    | inr (inl (e, _, _, _)) ↦ rw e
    | inr (inr (e, _, _)) ↦ rw e
  ]
    where
      validated_preview : (build_write_preview_report d.host r).success ≡ true
      validated_preview = preview_of_validated valid

  -- What a successful validation stores can be executed until it expires: if the model name is well
  -- formed, writes are enabled and no dict has a key twice, the approval that the server
  -- returned, confirmed up to 600 seconds after the validation, makes exactly the call that the
  -- preview showed, with the contents of the uploads that were stored in the place of their
  -- fingerprints, and returns what Odoo returns.
  pub validated_write_delivered :
      (approval : Fields) (later : ℕ) (v : Value)
      → (validate_write_report d.host r metadata).success ≡ true
      → is_model_name r.model ≡ true
      → IsWellKeyed r
      → writes_enabled d.env ≡ true
      → registered.approval ≡ some approval
      → later ≤ now + 600
      → d.connect delivered_call.instance ≡ none
      → d.respond app.calls delivered_call ≡ returned v
      → ((execute_approved_write d registered.app approval true later).1 ≡ ok v)
        × ((execute_approved_write d registered.app approval true later).0.calls
            ≡ app.calls ++ delivered_call ∷ [])
  unfolding execute_approved_write
  validated_write_delivered approval later v valid named keyed enabled given fresh reached
        answered =
      let back : approval ≡ stamped shown now = cc (register-validated valid, given) in
      let auth = stored_IsAuthorised later keyed enabled fresh in
      rw (register-validated valid, back)
        (rw (IsAuthorised-check_gates d stored_app (stamped shown now) true later _ auth) (
          rw (plan_call-delivered named (validated_operation valid))
            (run_call_answered delivered_call (stamped shown now) v reached answered)))
