-- ===== src/Write/Confirmation.antt =====
-- The human confirmation of a write by elicitation, `execute_approved_write_tool` of
-- src/odoo_mcp/tools_write.py. What the client answers is an argument; the message that it shows is
-- left out.
mod Tests
use mcp_odoo.Prelude.Result.{Result, err, ok, Result-cases}
use mcp_odoo.Prelude.{
  ℕ, ◌≡◌, ◌⊎◌, refl, Bool, Bool-cases, true, false, not, ◌&&◌, ◌||◌, Option, none, some, arith, inl,
  inr, if◌then◌else◌, List, ◌∷◌, ◌++◌,
}
use mcp_odoo.Json.{Value, Fields}
use mcp_odoo.Write.Approvals.{App}
use mcp_odoo.Write.Execute.{Deployment, GateError, truthy_env, execute_approved_write}

-- the client's answer: whether its action is "accept", and the data, `WriteConfirmation`
pub record Response : Type 0 where
  pub accepted : Bool
  pub approve : Option Bool

-- what the client says of itself: has it elicitation, with a form, with a URL
pub record Capabilities : Type 0 where
  pub elicitation : Bool
  pub form : Bool
  pub url : Bool

pub data Decision : Type 0 where
  skipped approved declined unsupported : Decision

pub data ToolRefusal : Type 0 where
  declined_by_human : ToolRefusal
  gate : GateError → ToolRefusal

abbrev pub is_approval : Response → Bool
is_approval r = r.accepted && (elim r.approve [ none ↦ false | some b ↦ b ])

-- `_elicit_write_confirmation`; no response where the client cannot elicit
unfoldable pub elicit_write_confirmation : Deployment → Option Response → Decision
elicit_write_confirmation d response =
    if not (truthy_env d.env "ODOO_MCP_ELICIT_WRITES") then skipped else (elim response [
      | none ↦ unsupported
      | some r ↦ if is_approval r then approved else declined
    ])

-- `_resolve_write_confirmation`: an approval without asking, or the answer of the client
unfoldable pub resolve_write_confirmation : Deployment → Capabilities → Response → Response
resolve_write_confirmation d c asked =
    if not (truthy_env d.env "ODOO_MCP_ELICIT_WRITES")
      || not (c.elicitation && (c.form || not c.url))
    then record { accepted = true; approve = some true }
    else asked

-- a call from Python, or one of the protocol, whose review has been resolved
pub data Review : Type 0 where
  direct_call : Option Response → Review
  reviewed : Response → Review

unfoldable pub decide : Deployment → Review → Decision
unfolding elicit_write_confirmation
decide d (direct_call response) = elicit_write_confirmation d response
decide d (reviewed r) = if is_approval r then approved else declined

abbrev pub is_declined : Decision → Bool
is_declined declined = true
is_declined _ = false

abbrev after_gates : App × Result GateError Value → App × Result ToolRefusal Value
after_gates (app, err e) = (app, err (gate e))
after_gates (app, ok v) = (app, ok v)

-- `execute_approved_write_tool`
unfoldable pub execute_approved_write_tool :
    Deployment → App → Fields → Bool → Review → ℕ → App × Result ToolRefusal Value
execute_approved_write_tool d app approval confirm review now =
    if is_declined (decide d review)
    then (app, err declined_by_human)
    else after_gates (execute_approved_write d app approval confirm now)

-- the tool's answer is the one of the gates: the value of Odoo, or the refusal of a gate
abbrev pub IsRelayed : Result GateError Value → Result ToolRefusal Value → Type 0
IsRelayed (ok v) answer = answer ≡ ok v
IsRelayed (err e) answer = answer ≡ err (gate e)

-- Where the operator asks for elicitation and the client can elicit, and not with a URL only, either
-- the human accepted and approved, and the tool changes and answers what `execute_approved_write`
-- does, or the tool changes nothing and says that the human declined.
pub execute_approved_write_tool_reviewed :
    (d : Deployment) (app : App) (approval : Fields) (confirm : Bool) (c : Capabilities)
    (asked : Response) (now : ℕ)
    → truthy_env d.env "ODOO_MCP_ELICIT_WRITES" ≡ true
    → c.elicitation ≡ true
    → (c.form || not c.url) ≡ true
    → let review = reviewed (resolve_write_confirmation d c asked) in
      let after = execute_approved_write_tool d app approval confirm review now in
      ((asked.accepted ≡ true)
        × (asked.approve ≡ some true)
        × (after.0 ≡ (execute_approved_write d app approval confirm now).0)
        × IsRelayed (execute_approved_write d app approval confirm now).1 after.1)
      ⊎ (after ≡ (app, err declined_by_human))
unfolding resolve_write_confirmation decide execute_approved_write_tool
execute_approved_write_tool_reviewed d app approval confirm c asked now on able form =
    elim (Result-cases (execute_approved_write d app approval confirm now).1) [
      | inl (e, failed) ↦ rw failed (ground arith)
      | inr (v, passed) ↦ rw passed (ground arith)
    ]
