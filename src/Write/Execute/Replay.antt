-- ===== src/Write/Execute/Replay.antt =====
-- A token is good for one successful execution.
use mcp_odoo.Prelude.Result.{Result, err, ok}
use mcp_odoo.Prelude.{ℕ, String, ◌≡◌, ◌⊎◌, Bool, none, List, [], ◌∷◌, arith, inl, inr, eq_refl}
use mcp_odoo.Prelude.Dict
use mcp_odoo.Prelude.Dict.{get-remove}
use mcp_odoo.Json.{Value, Fields}
use mcp_odoo.Write.Host.{Call}
use mcp_odoo.Write.Approvals.{App, ValidationRecord, token_of, require_validated_write_approval}
use mcp_odoo.Write.Execute.{
  GateError, Deployment, token_mismatch, not_validated, check_gates, run_call, run_checked,
  run_planned, plan_call, execute_approved_write,
}

module _ (d : Deployment) (approval : Fields) where
  run_call_consumes :
      (app : App) (call : Call) (v : Value)
      → (run_call d app approval call).1 ≡ ok v
      → Dict.get (token_of d.host approval) (run_call d app approval call).0.write_approvals ≡ none
  unfolding run_call
  run_call_consumes app call v h = ground (
    arith,
    get-remove (token_of d.host approval) (token_of d.host approval) app.write_approvals,
    eq_refl (token_of d.host approval),
  )

  run_checked_consumes :
      (app : App) (checked : Result GateError ValidationRecord) (v : Value)
      → (run_checked d app approval checked).1 ≡ ok v
      → Dict.get (token_of d.host approval) (run_checked d app approval checked).0.write_approvals
        ≡ none
  run_checked_consumes app (err e) v h = cc
  run_checked_consumes app (ok r) v h = go (plan_call d approval r) h
    where
      go :
          (planned : Result GateError Call)
          → (run_planned d app approval planned).1 ≡ ok v
          → Dict.get
              (token_of d.host approval)
              (run_planned d app approval planned).0.write_approvals
            ≡ none
      go (err e) p = cc
      go (ok call) p = run_call_consumes app call v p

  pub execute_approved_write_consumes :
      (app : App) (confirm : Bool) (now : ℕ) (v : Value)
      → (execute_approved_write d app approval confirm now).1 ≡ ok v
      → Dict.get
          (token_of d.host approval)
          (execute_approved_write d app approval confirm now).0.write_approvals
        ≡ none
  unfolding execute_approved_write
  execute_approved_write_consumes app confirm now v h =
      run_checked_consumes (check_gates d app approval confirm now).0
        (check_gates d app approval confirm now).1 v h

  refused_unknown :
      (app : App) (confirm : Bool) (now : ℕ)
      → Dict.get (token_of d.host approval) app.write_approvals ≡ none
      → (check_gates d app approval confirm now ≡ (app, err token_mismatch))
        ⊎ (check_gates d app approval confirm now ≡ (app, err not_validated))
  unfolding check_gates require_validated_write_approval
  refused_unknown app confirm now h = ground arith

  refused_execute :
      (app : App) (confirm : Bool) (now : ℕ)
      → Dict.get (token_of d.host approval) app.write_approvals ≡ none
      → (execute_approved_write d app approval confirm now ≡ (app, err token_mismatch))
        ⊎ (execute_approved_write d app approval confirm now ≡ (app, err not_validated))
  unfolding execute_approved_write
  refused_execute app confirm now h = elim (refused_unknown app confirm now h) [
    | inl e ↦ inl (rw e)
    | inr e ↦ inr (rw e)
  ]

-- an execution that is asked for: the approval, `confirm` and the time
pub record Attempt : Type 0 where
  pub approval : Fields
  pub confirm : Bool
  pub now : ℕ

-- the state after some executions, successful or not
abbrev pub after_attempts : Deployment → App → List Attempt → App
after_attempts d app [] = app
after_attempts d app (a ∷ attempts) =
    after_attempts d (execute_approved_write d app a.approval a.confirm a.now).0 attempts

-- executions store nothing: a token that is missing stays so
module _ (d : Deployment) (token : String) where
  abbrev IsMissing : App → Type 0
  IsMissing app = Dict.get token app.write_approvals ≡ none

  run_call-IsMissing :
      (app : App) (approval : Fields) (call : Call)
      → IsMissing app
      → IsMissing (run_call d app approval call).0
  unfolding run_call
  run_call-IsMissing app approval call h =
      ground (arith, get-remove (token_of d.host approval) token app.write_approvals)

  run_checked-IsMissing :
      (app : App) (approval : Fields) (checked : Result GateError ValidationRecord)
      → IsMissing app
      → IsMissing (run_checked d app approval checked).0
  run_checked-IsMissing app approval (err e) h = h
  run_checked-IsMissing app approval (ok r) h = go (plan_call d approval r)
    where
      go : (planned : Result GateError Call) → IsMissing (run_planned d app approval planned).0
      go (err e) = h
      go (ok call) = run_call-IsMissing app approval call h

  check_gates-IsMissing :
      (app : App) (approval : Fields) (confirm : Bool) (now : ℕ)
      → IsMissing app
      → IsMissing (check_gates d app approval confirm now).0
  unfolding check_gates require_validated_write_approval
  check_gates-IsMissing app approval confirm now h =
      ground (arith, get-remove (token_of d.host approval) token app.write_approvals)

  after_attempts-IsMissing :
      (app : App) (attempts : List Attempt)
      → IsMissing app
      → IsMissing (after_attempts d app attempts)
  unfolding execute_approved_write
  after_attempts-IsMissing app [] h = h
  after_attempts-IsMissing app (a ∷ attempts) h =
      after_attempts-IsMissing (execute_approved_write d app a.approval a.confirm a.now).0 attempts
        (run_checked-IsMissing (check_gates d app a.approval a.confirm a.now).0 a.approval
          (check_gates d app a.approval a.confirm a.now).1
          (check_gates-IsMissing app a.approval a.confirm a.now h))

-- After a successful execution, and any sequence of further executions of this and other approvals
-- with nothing validated in between, an execution with the same token, whatever else the approval
-- says and whenever it comes, is refused and changes nothing.
pub execute_approved_write_replay :
    (d : Deployment) (app : App) (first second : Fields) (confirm confirm' : Bool) (now later : ℕ)
    (v : Value) (between : List Attempt)
    → token_of d.host second ≡ token_of d.host first
    → (execute_approved_write d app first confirm now).1 ≡ ok v
    → let app' = after_attempts d (execute_approved_write d app first confirm now).0 between in
      (execute_approved_write d app' second confirm' later ≡ (app', err token_mismatch))
      ⊎ (execute_approved_write d app' second confirm' later ≡ (app', err not_validated))
execute_approved_write_replay d app first second confirm confirm' now later v between same done =
    refused_execute d second _ confirm' later (
      rw same (
        after_attempts-IsMissing d (token_of d.host first)
          (execute_approved_write d app first confirm now).0 between
          (execute_approved_write_consumes d first app confirm now v done)))
