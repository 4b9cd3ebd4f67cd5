-- ===== src/Write/Execute/Gates.antt =====
-- What it takes to pass the gates of `_execute_approved_write_gated`.
use mcp_odoo.Prelude.Result.{ok}
use mcp_odoo.Prelude.{ℕ, ◌≤◌, ◌≡◌, Bool, true, some, arith}
use mcp_odoo.Prelude.Dict
use mcp_odoo.Json.{Fields}
use mcp_odoo.Write.Approvals.{
  ValidationRecord, App, write_approval_payload, verify_write_approval, token_of,
  require_validated_write_approval,
}
use mcp_odoo.Write.Execute.{Deployment, eq_payload, writes_enabled, check_gates}

-- `approval` was validated in this session as `r`, which has not expired, its payload is the one that
-- was validated, and the caller and the operator agree.
pub record IsAuthorised (d : Deployment) (app : App) (approval : Fields) (confirm : Bool) (now : ℕ)
    (r : ValidationRecord) : Type 0 where
  pub token : verify_write_approval d.host approval ≡ true
  pub stored : Dict.get (token_of d.host approval) app.write_approvals ≡ some r
  pub fresh : now ≤ r.expires_at
  pub same : eq_payload (write_approval_payload approval) r.payload ≡ true
  pub confirmed : confirm ≡ true
  pub enabled : writes_enabled d.env ≡ true

module _ (d : Deployment) (app : App) (approval : Fields) (confirm : Bool) (now : ℕ) where
  pub check_gates-IsAuthorised :
      (r : ValidationRecord)
      → (check_gates d app approval confirm now).1 ≡ ok r
      → IsAuthorised d app approval confirm now r
  unfolding check_gates require_validated_write_approval
  check_gates-IsAuthorised r h = ground arith

  pub IsAuthorised-check_gates :
      (r : ValidationRecord)
      → IsAuthorised d app approval confirm now r
      → check_gates d app approval confirm now ≡ (app, ok r)
  unfolding check_gates require_validated_write_approval
  IsAuthorised-check_gates r a = ground arith

  pub calls-check_gates : (check_gates d app approval confirm now).0.calls ≡ app.calls
  unfolding check_gates require_validated_write_approval
  calls-check_gates = ground arith
