-- ===== src/Write/Execute/Safety.antt =====
-- No remote call without authorisation, at most one call for each execution, and none on replay.
use mcp_odoo.Prelude.Result.{Result, err, ok}
use mcp_odoo.Prelude.{ℕ, ◌≡◌, ◌⊎◌, refl, ap, ◌∙◌, Bool, true, [], ◌∷◌, ◌++◌, arith, inl, inr}
use mcp_odoo.Json.{Fields}
use mcp_odoo.Write.Host.{Call}
use mcp_odoo.Write.Names.{is_model_name}
use mcp_odoo.Write.Preview.{is_write_operation}
use mcp_odoo.Write.Approvals.{ValidationRecord, App}
use mcp_odoo.Write.Execute.{
  GateError, Deployment, check_gates, plan_call, run_call, run_planned, run_checked,
  execute_approved_write,
}
use mcp_odoo.Write.Execute.Gates.{IsAuthorised, check_gates-IsAuthorised, calls-check_gates}

module _ (d : Deployment) (approval : Fields) where
  -- a planned call is for a model name and one of the three operations
  pub plan_call_allowed :
      (r : ValidationRecord) (call : Call)
      → plan_call d approval r ≡ ok call
      → (is_model_name call.model ≡ true) × (is_write_operation call.method ≡ true)
  unfolding plan_call
  plan_call_allowed r call h = ground arith

module _ (d : Deployment) (app : App) (approval : Fields) where
  calls-run_call :
      (call : Call)
      → ((run_call d app approval call).0.calls ≡ app.calls)
        ⊎ ((run_call d app approval call).0.calls ≡ app.calls ++ call ∷ [])
  unfolding run_call
  calls-run_call call = ground arith

  pub calls-run_checked :
      (checked : Result GateError ValidationRecord)
      → ((run_checked d app approval checked).0.calls ≡ app.calls)
        ⊎ ((r : ValidationRecord) × (call : Call) × (checked ≡ ok r)
            × (plan_call d approval r ≡ ok call)
            × ((run_checked d app approval checked).0.calls ≡ app.calls ++ call ∷ []))
  calls-run_checked (err e) = inl refl
  calls-run_checked (ok r) = go (plan_call d approval r) refl
    where
      go :
          (planned : Result GateError Call)
          → plan_call d approval r ≡ planned
          → ((run_planned d app approval planned).0.calls ≡ app.calls)
            ⊎ ((r' : ValidationRecord) × (call : Call) × (◌≡◌
                  {A = Result GateError ValidationRecord}
                  (ok r)
                  (ok r'))
                × (plan_call d approval r' ≡ ok call)
                × ((run_planned d app approval planned).0.calls ≡ app.calls ++ call ∷ []))
      go (err e) p = inl refl
      go (ok call) p = elim (calls-run_call call) [
        | inl same ↦ inl same
        | inr more ↦ inr (r, call, refl, p, more)
      ]

module _ (d : Deployment) (app : App) (approval : Fields) (confirm : Bool) (now : ℕ) where
  -- An execution sends nothing to Odoo, or exactly one call. It sends one only if the approval was
  -- validated in this session and has not expired, its token and its payload are those of the stored
  -- record, the caller confirmed and writes are enabled; and then the call is the one planned from
  -- the approval, for a well-formed model name and create, write or unlink.
  pub calls-execute_approved_write :
      ((execute_approved_write d app approval confirm now).0.calls ≡ app.calls)
      ⊎ ((r : ValidationRecord) × (call : Call) × IsAuthorised d app approval confirm now r
          × (plan_call d approval r ≡ ok call)
          × (is_model_name call.model ≡ true)
          × (is_write_operation call.method ≡ true)
          × ((execute_approved_write d app approval confirm now).0.calls ≡ app.calls ++ call ∷ []))
  unfolding execute_approved_write
  calls-execute_approved_write =
      let (app', checked) = check_gates d app approval confirm now in
      elim (calls-run_checked d app' approval checked) [
        | inl same ↦ inl (same ∙ calls-check_gates d app approval confirm now)
        | inr (r, call, passed, planned, sent) ↦ inr (
          r,
          call,
          check_gates-IsAuthorised d app approval confirm now r passed,
          planned,
          (plan_call_allowed d approval r call planned).0,
          (plan_call_allowed d approval r call planned).1,
          sent ∙ ap (λ cs. cs ++ call ∷ []) (calls-check_gates d app approval confirm now),
        )
      ]
