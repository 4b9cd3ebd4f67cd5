-- ===== src/Write/Tools/Trusted.antt =====
-- What `validate_write` may store, and that what it stores can be executed.
use mcp_odoo.Prelude.Result.{ok, Result-cases, >>=-eq-ok, ok_inj}
use mcp_odoo.Prelude.{
  ℕ, ◌+◌, ◌≤◌, String, ◌≡◌, ◌⊎◌, refl, Bool, Bool-cases, true, false, Option, none, some, [], ◌∷◌,
  ◌++◌, arith, inl, inr, ap, ◌∙◌,
}
use mathlib.Core.Path.{subst}
use mcp_odoo.Json.{Value, Fields}
use mcp_odoo.Write.Host.{returned}
use mcp_odoo.Write.Names.{is_model_name}
use mcp_odoo.Write.Preview.{Request}
use mcp_odoo.Write.Validate.{validate_write_report}
use mcp_odoo.Write.Approvals.{App, Registered, register_write_approval}
use mcp_odoo.Write.Execute.{writes_enabled, execute_approved_write}
use mcp_odoo.Write.Execute.Planned.{requested_call, filled}
use mcp_odoo.Write.Execute.Delivery.{IsWellKeyed, validated_write_delivered}
use mcp_odoo.Write.Tools.{
  Surroundings, Source, input, nowhere, Prepared, Answer, prepare, metadata_for, live_metadata,
  is_trusted, answer_prepared, validate_write,
}

-- what `validate_write` registers for a request that it read as `p`
abbrev pub registered_for : Surroundings → App → Prepared → ℕ → Registered
registered_for s app p now =
    register_write_approval s.deployment.host app
      (validate_write_report s.deployment.host p.request p.metadata) p.binaries now

stored_valid :
    (s : Surroundings) (app : App) (p : Prepared) (now : ℕ)
    → (registered_for s app p now).stored ≡ true
    → (validate_write_report s.deployment.host p.request p.metadata).success ≡ true
unfolding register_write_approval
stored_valid s app p now stored = ground arith

-- nothing is registered for a report that did not succeed
register_refused :
    (s : Surroundings) (app : App) (p : Prepared) (now : ℕ)
    → (validate_write_report s.deployment.host p.request p.metadata).success ≡ false
    → (registered_for s app p now).app ≡ app
unfolding register_write_approval
register_refused s app p now failed = ground arith

metadata_for_trusted :
    (s : Surroundings) (instance : Option String) (model : String) (given : Option Fields)
    (live : Bool) (source : Source) (metadata : Option Fields)
    → metadata_for s instance model given live ≡ ok (source, metadata)
    → is_trusted source metadata ≡ true
    → (fs : Fields) × (given ≡ none)
      × (live ≡ true)
      × (live_metadata s instance model ≡ ok fs)
      × (metadata ≡ some fs)
unfolding metadata_for
metadata_for_trusted s instance model (some fs) live source metadata h trusted =
    let from : input ≡ source = cc h in
    cc (trusted, subst (λ x. is_trusted x metadata ≡ false) from refl)
metadata_for_trusted s instance model none false source metadata h trusted =
    let from : nowhere ≡ source = cc h in
    cc (trusted, subst (λ x. is_trusted x metadata ≡ false) from refl)
metadata_for_trusted s instance model none true source metadata h trusted =
    let (fs, found, same) = >>=-eq-ok (live_metadata s instance model) _ h in
    (fs, refl, refl, found, cc same)

module _ (s : Surroundings) (app : App) (r : Request) (instance : Option String)
    (given : Option Fields) (live : Bool) (now : ℕ) where
  prepare-metadata_for :
      (p : Prepared)
      → prepare s r instance given live ≡ ok p
      → (is_model_name r.model ≡ true)
        × (p.request.model ≡ r.model)
        × (metadata_for s instance r.model given live ≡ ok (p.source, p.metadata))
  unfolding prepare
  prepare-metadata_for p h = ground (arith, h)

  -- the report is about trusted metadata, that of Odoo now
  abbrev pub IsTrusted : Prepared → Type 0
  IsTrusted p =
      (fs : Fields) × (given ≡ none)
      × (live ≡ true)
      × (live_metadata s instance r.model ≡ ok fs)
      × (p.metadata ≡ some fs)

  prepared_IsTrusted :
      (p : Prepared)
      → prepare s r instance given live ≡ ok p
      → is_trusted p.source p.metadata ≡ true
      → IsTrusted p
  prepared_IsTrusted p h trusted =
      metadata_for_trusted s instance r.model given live p.source p.metadata
        (prepare-metadata_for p h).2 trusted

  -- A validation leaves the store of approvals as it is, or it was made against the metadata that
  -- Odoo has now, which the caller neither gave nor turned off, found nothing wrong, and registered
  -- just the approval of the request that it read.
  pub validate_write-IsTrusted :
      ((validate_write s app r instance given live now).0 ≡ app)
      ⊎ ((p : Prepared) × (prepare s r instance given live ≡ ok p)
          × IsTrusted p
          × ((validate_write_report s.deployment.host p.request p.metadata).success ≡ true)
          × ((validate_write s app r instance given live now).0 ≡ (registered_for s app p now).app))
  unfolding validate_write answer_prepared
  validate_write-IsTrusted = elim (Result-cases (prepare s r instance given live)) [
    | inl (e, failed) ↦ inl (rw (validate_write, failed) refl)
    | inr (p, prepared) ↦
        let report = validate_write_report s.deployment.host p.request p.metadata in
        elim (Bool-cases (is_trusted p.source p.metadata)) [
          | inr other ↦ inl (rw (validate_write, prepared, other) refl)
          | inl trusted ↦ elim (Bool-cases report.success) [
            | inr failed ↦
                inl (rw (validate_write, prepared, trusted) (register_refused s app p now failed))
            | inl valid ↦ inr (
              p,
              prepared,
              prepared_IsTrusted p prepared trusted,
              valid,
              rw (validate_write, prepared, trusted) refl,
            )
          ]
        ]
  ]

  answer_stored :
      (p : Prepared) (answer : Answer)
      → prepare s r instance given live ≡ ok p
      → (validate_write s app r instance given live now).1 ≡ ok answer
      → answer.stored ≡ true
      → ((validate_write s app r instance given live now).0 ≡ (registered_for s app p now).app)
        × ((registered_for s app p now).stored ≡ true)
        × ((registered_for s app p now).approval ≡ answer.approval)
  unfolding validate_write answer_prepared
  answer_stored p answer prepared answered stored =
      let answered' = rw (validate_write, prepared) at answered in
      elim (Bool-cases (is_trusted p.source p.metadata)) [
        | inr other ↦ cc (stored, ap (λ (a : Answer). a.stored) (ok_inj (rw other at answered')))
        | inl trusted ↦
            let same = ok_inj (rw trusted at answered') in
            (
              rw (validate_write, prepared, trusted) refl,
              ap (λ (a : Answer). a.stored) same ∙ stored,
              ap (λ (a : Answer). a.approval) same,
            )
      ]

  -- If `validate_write` says that it stored the approval of a request that it read as `p`, no dict of
  -- which has a key twice, and writes are enabled, then this approval, confirmed up to 600 seconds
  -- later, makes exactly the call that the preview of the request shows, with the contents of the
  -- uploads in the place of their fingerprints, and returns what Odoo returns to it.
  pub validate_write_delivered :
      (p : Prepared) (answer : Answer) (approval : Fields) (later : ℕ) (v : Value)
      → prepare s r instance given live ≡ ok p
      → (validate_write s app r instance given live now).1 ≡ ok answer
      → answer.stored ≡ true
      → answer.approval ≡ some approval
      → IsWellKeyed p.request
      → writes_enabled s.deployment.env ≡ true
      → later ≤ now + 600
      → let call = requested_call s.deployment (filled p.binaries p.request) in
        s.deployment.connect call.instance ≡ none
        → s.deployment.respond app.calls call ≡ returned v
        → let app' = (validate_write s app r instance given live now).0 in
          ((execute_approved_write s.deployment app' approval true later).1 ≡ ok v)
          × ((execute_approved_write s.deployment app' approval true later).0.calls
              ≡ app.calls ++ call ∷ [])
  validate_write_delivered p answer approval later v prepared answered stored shown keyed enabled
        fresh reached response =
      let (after, registered, given') = answer_stored p answer prepared answered stored in
      let named : is_model_name p.request.model ≡ true =
        let (named, same, _) = prepare-metadata_for p prepared in rw same named in
      rw after (
        validated_write_delivered s.deployment app p.request p.metadata p.binaries now approval
          later v (stored_valid s app p now registered) named keyed enabled (given' ∙ shown) fresh
          reached response)
