-- ===== src/Sign/Permitted.antt =====
-- The calls that the guards of the Sign profile permit.
use mcp_odoo.Prelude.Result.{ok, guard, >>=-eq-ok, ok_inj}
use mcp_odoo.Prelude.{ℕ, ◌≤◌, String, ◌≡◌, refl, Bool, true, false, List, All, arith}
use mathlib.Core.Path.{subst}
use mcp_odoo.Prelude.Dict.{contains}
use mcp_odoo.Prelude.Int.{ℤ, pos, negsuc}
use mcp_odoo.Json.{Fields}
use mcp_odoo.Write.Execute.{truthy_env}
use mcp_odoo.Write.Preview.{ids_or_empty, fields_or_empty}
use mcp_odoo.Resolve.{Resolved}
use mcp_odoo.Sign.Lists.{sign_models, mutable_models, unlink_models, blocked_for}
use mcp_odoo.Sign.Chosen.{IsShown, choose_fields-IsShown}
use mcp_odoo.Sign.Policy.{
  SignCall, fields_get, search_read, read_records, SignServer, SignRequest, sign_model_fields,
  safe_fields, has_any, validate_write_values, normalize_ids, clamp_limit, orm_create, orm_write,
  orm_unlink, unlink_blocked,
}
use mcp_odoo.Sign.{
  plan_search, plan_read, plan_create, plan_write, plan_unlink, at_least_zero, items_or_empty,
}

-- a request for metadata
abbrev pub is_fields_get : SignCall → Bool
is_fields_get (fields_get client name) = true
is_fields_get _ = false

module _ (s : SignServer) (q : SignRequest) where
  -- the operator enabled the writes of the profile, and the caller confirmed
  abbrev pub IsEnabled : Type 0
  IsEnabled =
      (truthy_env s.deployment.env "ODOO_MCP_SIGN_ENABLE_WRITES" ≡ true) × (q.confirm ≡ true)

  -- the fields are fields of the model that may be shown
  abbrev pub AreShown : Resolved → String → List String → Type 0
  AreShown r model fields =
      (metadata : Fields) × (sign_model_fields s r model ≡ ok metadata)
      × All (IsShown metadata) fields

  pub data IsPermitted : SignCall → Type 0 where
    describing :
        (r : Resolved) (model : String)
        → contains sign_models model ≡ true
        → IsPermitted (fields_get r.client model)
    searching :
        (r : Resolved) (model : String) (fields : List String) (limit : ℕ)
        → contains sign_models model ≡ true
        → AreShown r model fields
        → limit ≤ 200
        → IsPermitted (
            search_read r.client model
              (items_or_empty q.domain)
              fields
              limit
              (at_least_zero q.offset)
              q.order)
    reading :
        (r : Resolved) (model : String) (ids : List ℤ) (fields : List String)
        → contains sign_models model ≡ true
        → AreShown r model fields
        → IsPermitted (read_records r.client model ids fields)
    creating :
        (r : Resolved) (model : String) (values : Fields)
        → IsEnabled
        → contains mutable_models model ≡ true
        → has_any (blocked_for model) values ≡ false
        → IsPermitted (orm_create s r model values)
    writing :
        (r : Resolved) (model : String) (ids : List ℤ) (values : Fields)
        → IsEnabled
        → contains mutable_models model ≡ true
        → has_any (blocked_for model) values ≡ false
        → IsPermitted (orm_write s r model ids values)
    unlinking :
        (r : Resolved) (model : String) (ids : List ℤ)
        → IsEnabled
        → contains mutable_models model ≡ true
        → contains unlink_models model ≡ true
        → IsPermitted (orm_unlink s r model ids)

  AreShown-safe_fields :
      (r : Resolved) (model : String) (fields : List String)
      → safe_fields s r model q.fields ≡ ok fields
      → AreShown r model fields
  unfolding safe_fields
  AreShown-safe_fields r model fields h =
      let (metadata, known, chosen) = >>=-eq-ok (sign_model_fields s r model) _ h in
      (metadata, known, choose_fields-IsShown metadata q.fields fields chosen)

  clamp_limit-le : (limit : ℤ) (n : ℕ) → clamp_limit limit 200 ≡ ok n → n ≤ 200
  unfolding clamp_limit
  clamp_limit-le (pos a) n h = ground (arith, h)
  clamp_limit-le (negsuc a) n h = cc h

  module _ (r : Resolved) (model : String) where
    pub plan_search-other :
        (call : SignCall) → plan_search s r model q ≡ ok call → is_fields_get call ≡ false
    unfolding plan_search
    plan_search-other call h =
        let (fields, shown, rest) = >>=-eq-ok (safe_fields s r model q.fields) _ h in
        let (limit, clamped, same) = >>=-eq-ok (clamp_limit q.limit 200) _ rest in
        subst (λ c. is_fields_get c ≡ false) (ok_inj same) refl

    pub plan_read-other :
        (call : SignCall) → plan_read s r model q ≡ ok call → is_fields_get call ≡ false
    unfolding plan_read
    plan_read-other call h =
        let (ids, given, rest) = >>=-eq-ok (normalize_ids (ids_or_empty q.record_ids)) _ h in
        let (fields, shown, same) = >>=-eq-ok (safe_fields s r model q.fields) _ rest in
        subst (λ c. is_fields_get c ≡ false) (ok_inj same) refl

    pub plan_search-IsPermitted :
        (call : SignCall)
        → contains sign_models model ≡ true
        → plan_search s r model q ≡ ok call
        → IsPermitted call
    unfolding plan_search
    plan_search-IsPermitted call allowed h =
        let (fields, shown, rest) = >>=-eq-ok (safe_fields s r model q.fields) _ h in
        let (limit, clamped, same) = >>=-eq-ok (clamp_limit q.limit 200) _ rest in
        subst IsPermitted (ok_inj same) (
          searching r model fields limit allowed (AreShown-safe_fields r model fields shown)
            (clamp_limit-le q.limit limit clamped))

    pub plan_read-IsPermitted :
        (call : SignCall)
        → contains sign_models model ≡ true
        → plan_read s r model q ≡ ok call
        → IsPermitted call
    unfolding plan_read
    plan_read-IsPermitted call allowed h =
        let (ids, given, rest) = >>=-eq-ok (normalize_ids (ids_or_empty q.record_ids)) _ h in
        let (fields, shown, same) = >>=-eq-ok (safe_fields s r model q.fields) _ rest in
        subst IsPermitted (ok_inj same)
          (reading r model ids fields allowed (AreShown-safe_fields r model fields shown))

    validated :
        (values values' : Fields)
        → validate_write_values model values ≡ ok values'
        → has_any (blocked_for model) values' ≡ false
    unfolding validate_write_values
    validated values values' h = ground (arith, h)

    pub plan_create-IsPermitted :
        (call : SignCall)
        → IsEnabled
        → contains mutable_models model ≡ true
        → plan_create s r model q ≡ ok call
        → IsPermitted call
    unfolding plan_create
    plan_create-IsPermitted call enabled allowed h =
        let (values, checked, same) =
          >>=-eq-ok (validate_write_values model (fields_or_empty q.values)) _ h in
        subst IsPermitted (ok_inj same) (
          creating r model values enabled allowed
            (validated (fields_or_empty q.values) values checked))

    pub plan_write-IsPermitted :
        (call : SignCall)
        → IsEnabled
        → contains mutable_models model ≡ true
        → plan_write s r model q ≡ ok call
        → IsPermitted call
    unfolding plan_write
    plan_write-IsPermitted call enabled allowed h =
        let (ids, given, rest) = >>=-eq-ok (normalize_ids (ids_or_empty q.record_ids)) _ h in
        let (values, checked, same) =
          >>=-eq-ok (validate_write_values model (fields_or_empty q.values)) _ rest in
        subst IsPermitted (ok_inj same) (
          writing r model ids values enabled allowed
            (validated (fields_or_empty q.values) values checked))

    pub plan_unlink-IsPermitted :
        (call : SignCall)
        → IsEnabled
        → contains mutable_models model ≡ true
        → plan_unlink s r model q ≡ ok call
        → IsPermitted call
    unfolding plan_unlink
    plan_unlink-IsPermitted call enabled allowed h =
        let (_, listed, rest) =
          >>=-eq-ok (guard (contains unlink_models model) unlink_blocked) _ h in
        let (ids, given, same) = >>=-eq-ok (normalize_ids (ids_or_empty q.record_ids)) _ rest in
        subst IsPermitted (ok_inj same)
          (unlinking r model ids enabled allowed (ground (arith, listed)))
