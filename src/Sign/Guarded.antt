-- ===== src/Sign/Guarded.antt =====
-- What `sign_model` may ask of Odoo.
use mcp_odoo.Prelude.Result.{Result, ok, err, Result-cases, >>=-eq-ok}
use mcp_odoo.Prelude.{
  String, ◌≡◌, ◌⊎◌, refl, sym, Bool-cases, true, false, List, [], ◌∷◌, ◌++◌, str_eq, arith, eq_iff,
  inl, inr, if◌then◌else◌,
}
use mathlib.Core.Path.{subst}
use mcp_odoo.Prelude.Dict.{contains}
use mcp_odoo.Prelude.Text.{strip}
use mcp_odoo.Json.{Value}
use mcp_odoo.Write.Preview.{ids_or_empty}
use mcp_odoo.Resolve.{Resolved, resolve_odoo}
use mcp_odoo.Sign.Lists.{sign_models, mutable_models}
use mcp_odoo.Sign.Policy.{
  SignCall, SignServer, SignError, SignReply, SignRequest, validate_model, require_confirm,
  model_not_allowed, fields_get, rows, normalize_ids,
}
use mcp_odoo.Sign.{
  after_fields_get, before_read, plan_search, plan_read, plan_operation, plan_change, ask,
  run_operation, with_client, is_mutation, sign_model,
}
use mcp_odoo.Sign.Permitted.{
  IsEnabled, IsPermitted, describing, is_fields_get, plan_search-other, plan_read-other,
  plan_search-IsPermitted, plan_read-IsPermitted, plan_create-IsPermitted, plan_write-IsPermitted,
  plan_unlink-IsPermitted,
}

-- the models that are allowed for an operation
abbrev allowed_models : String → List String
allowed_models operation = if is_mutation operation then mutable_models else sign_models

module _ (s : SignServer) (q : SignRequest) (r : Resolved) (model operation : String) where
  for_mutation :
      is_mutation operation ≡ true
      → contains (allowed_models operation) model ≡ true
      → contains mutable_models model ≡ true
  for_mutation mutates allowed =
      subst (λ b. contains (if b then mutable_models else sign_models) model ≡ true) mutates allowed

  for_reading :
      (name : String)
      → str_eq operation name ≡ true
      → is_mutation name ≡ false
      → contains (allowed_models operation) model ≡ true
      → contains sign_models model ≡ true
  for_reading name same reads allowed =
      subst (λ b. contains (if b then mutable_models else sign_models) model ≡ true) reads
        (subst (λ o. contains (allowed_models o) model ≡ true) ((eq_iff operation name).0 same)
          allowed)

  plan_operation-IsPermitted :
      (call : SignCall)
      → IsEnabled s q
      → contains (allowed_models operation) model ≡ true
      → plan_operation s r model operation q ≡ ok call
      → IsPermitted s q call
  unfolding plan_operation
  plan_operation-IsPermitted call enabled allowed h =
      elim (Bool-cases (str_eq operation "create")) [
        | inl create ↦
            plan_create-IsPermitted s q r model call enabled
              (for_mutation (ground (arith, create)) allowed) (rw (plan_operation, create) at h)
        | inr other ↦ elim (Bool-cases (str_eq operation "write")) [
          | inl write ↦
              plan_write-IsPermitted s q r model call enabled
                (for_mutation (ground (arith, write)) allowed)
                (rw (plan_operation, other, write) at h)
          | inr other' ↦ elim (Bool-cases (str_eq operation "unlink")) [
            | inl unlink ↦
                plan_unlink-IsPermitted s q r model call enabled
                  (for_mutation (ground (arith, unlink)) allowed)
                  (rw (plan_operation, other, other', unlink) at h)
            | inr none_of ↦ cc (rw (plan_operation, other, other', none_of) at h)
          ]
        ]
      ]

  plan_change-IsPermitted :
      (call : SignCall)
      → contains (allowed_models operation) model ≡ true
      → plan_change s r model operation q ≡ ok call
      → IsPermitted s q call
  unfolding plan_change require_confirm
  plan_change-IsPermitted call allowed h =
      let (_, confirmed, planned) = >>=-eq-ok (require_confirm s.deployment q.confirm) _ h in
      plan_operation-IsPermitted call (ground (arith, confirmed), ground (arith, confirmed)) allowed
        planned

validated_in :
    (models : List String) (given model : String)
    → ◌≡◌ {A = Result SignError String}
        (if contains models given then ok given else err model_not_allowed)
        (ok model)
    → contains models model ≡ true
validated_in models given model h = ground (arith, h)

-- nothing is asked, or one permitted call, or a request for metadata and one call of another kind,
-- both permitted
abbrev pub IsGuarded : SignServer → List SignCall → SignRequest → List SignCall → Type 0
IsGuarded s calls q after =
    (after ≡ calls)
    ⊎ ((call : SignCall) × IsPermitted s q call × (after ≡ calls ++ call ∷ []))
    ⊎ ((asked call : SignCall) × IsPermitted s q asked
        × IsPermitted s q call
        × (is_fields_get asked ≡ true)
        × (is_fields_get call ≡ false)
        × (after ≡ (calls ++ asked ∷ []) ++ call ∷ []))

module _ (s : SignServer) (calls : List SignCall) (q : SignRequest) where
  ask-IsGuarded :
      (reply : Value → SignReply) (planned : Result SignError SignCall)
      → ((call : SignCall) → planned ≡ ok call → IsPermitted s q call)
      → IsGuarded s calls q (ask s calls reply planned).0
  unfolding ask
  ask-IsGuarded reply (err e) permitted = inl refl
  ask-IsGuarded reply (ok call) permitted = inr (inl (call, permitted call refl, ground arith))

  module _ (r : Resolved) (model : String) (allowed : contains sign_models model ≡ true) where
    described-IsGuarded : IsGuarded s calls q (after_fields_get calls r model)
    described-IsGuarded = inr (inl (fields_get r.client model, describing r model allowed, refl))

    ask-IsGuarded_described :
        (reply : Value → SignReply) (planned : Result SignError SignCall)
        → ((call : SignCall)
            → planned ≡ ok call
            → IsPermitted s q call × (is_fields_get call ≡ false))
        → IsGuarded s calls q (ask s (after_fields_get calls r model) reply planned).0
    unfolding ask
    ask-IsGuarded_described reply (err e) permitted = described-IsGuarded
    ask-IsGuarded_described reply (ok call) permitted =
        let (fine, other) = permitted call refl in
        inr (
          inr (
            fields_get r.client model,
            call,
            describing r model allowed,
            fine,
            refl,
            other,
            ground arith,
          ))

    -- the metadata are asked for only where the identifiers have passed; then the read is planned
    ask_read-IsGuarded :
        IsGuarded s calls q (ask s (before_read calls r model q) rows (plan_read s r model q)).0
    unfolding before_read plan_read
    ask_read-IsGuarded = elim (Result-cases (normalize_ids (ids_or_empty q.record_ids))) [
      | inl (e, bad) ↦
          rw (before_read, plan_read, bad) (ask-IsGuarded rows (err e) (λ call h. cc h))
      | inr (ids, given) ↦
          subst (λ before. IsGuarded s calls q (ask s before rows (plan_read s r model q)).0)
            (sym (rw (before_read, given) refl))
            (ask-IsGuarded_described rows (plan_read s r model q) (λ call planned. (
              plan_read-IsPermitted s q r model call allowed planned,
              plan_read-other s q r model call planned,
            )))
    ]

  run_operation-IsGuarded :
      (r : Resolved) (model operation : String)
      → contains (allowed_models operation) model ≡ true
      → IsGuarded s calls q (run_operation s calls r model operation q).0
  unfolding run_operation
  run_operation-IsGuarded r model operation allowed =
      elim (Bool-cases (str_eq operation "schema")) [
        | inl schema ↦
            rw (run_operation, schema)
              (described-IsGuarded r model
                (for_reading s q r model operation "schema" schema refl allowed))
        | inr other ↦ elim (Bool-cases (str_eq operation "search")) [
          | inl search ↦
              rw (run_operation, other, search)
                (ask-IsGuarded_described r model
                  (for_reading s q r model operation "search" search refl allowed) rows
                  (plan_search s r model q)
                  (λ call planned. (
                    plan_search-IsPermitted s q r model call
                        (for_reading s q r model operation "search" search refl allowed) planned,
                    plan_search-other s q r model call planned,
                  )))
          | inr other' ↦ elim (Bool-cases (str_eq operation "read")) [
            | inl read ↦
                rw (run_operation, other, other', read)
                  (ask_read-IsGuarded r model
                    (for_reading s q r model operation "read" read refl allowed))
            | inr change ↦
                rw (run_operation, other, other', change)
                  (ask-IsGuarded _ (plan_change s r model operation q)
                    (λ call. plan_change-IsPermitted s q r model operation call allowed))
          ]
        ]
      ]

  validated_model :
      (operation model : String)
      → validate_model q.model (is_mutation operation) ≡ ok model
      → contains (allowed_models operation) model ≡ true
  unfolding validate_model
  validated_model operation model h =
      validated_in (allowed_models operation) (strip q.model) model h

  with_client-IsGuarded :
      (model operation : String) (client : Result String Resolved)
      → contains (allowed_models operation) model ≡ true
      → IsGuarded s calls q (with_client s calls model operation q client).0
  with_client-IsGuarded model operation (err message) allowed = inl refl
  with_client-IsGuarded model operation (ok r) allowed =
      run_operation-IsGuarded r model operation allowed

  -- The tool asks nothing of Odoo, or makes one call, or asks for the metadata of a model and makes one
  -- more call. The metadata, a search and a read are of a model of the Sign profile, the fields are
  -- fields that the model has, none of them a security or binary field, and the limit is at most 200.
  -- A change needs that the operator enabled writes and the caller confirmed, and it is a create or
  -- write of a mutable model without any blocked field, or an unlink of a model where it is allowed.
  pub sign_model-IsGuarded : IsGuarded s calls q (sign_model s calls q).0
  unfolding sign_model
  sign_model-IsGuarded =
      let operation = s.casefold (strip q.operation) in
      elim (Result-cases (validate_model q.model (is_mutation operation))) [
        | inl (e, failed) ↦ rw (sign_model, failed) (inl refl)
        | inr (model, valid) ↦
            rw (sign_model, valid)
              (with_client-IsGuarded model operation (resolve_odoo s.deployment q.instance)
                (validated_model operation model valid))
      ]
