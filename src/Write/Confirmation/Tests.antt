-- ===== src/Write/Confirmation/Tests.antt =====
-- The confirmation at a concrete input.
use mcp_odoo.Prelude.Result.{err}
use mcp_odoo.Prelude.{◌≡◌, ◌⊎◌, refl, true, false, none, some, []}
use mcp_odoo.Prelude.Text.{strip, lower}
use mcp_odoo.Json.{bool, end}
use mcp_odoo.Write.Host.{returned}
use mcp_odoo.Write.Approvals.{App}
use mcp_odoo.Write.Execute.{Deployment, truthy_env, execute_approved_write}
use mcp_odoo.Write.Confirmation.{
  Response, Capabilities, skipped, unsupported, declined_by_human, reviewed,
  elicit_write_confirmation, resolve_write_confirmation, decide, execute_approved_write_tool,
  IsRelayed, execute_approved_write_tool_reviewed,
}

abbrev asking : Deployment
asking = record {
  host = record { digest = λ _. "d"; render = λ _. "?" };
  env = λ _. some "1";
  default_instance = "default";
  connect = λ _. none;
  respond = λ _ _. returned (bool true);
}

abbrev empty_app : App
empty_app = record { write_approvals = []; calls = [] }

abbrev modern : Capabilities
modern = record { elicitation = true; form = true; url = false }

-- elicitation that names neither a form nor a URL
abbrev older : Capabilities
older = record { elicitation = true; form = false; url = false }

abbrev refusal : Response
refusal = record { accepted = true; approve = some false }

program : Unit {0}
unfolding strip lower truthy_env elicit_write_confirmation resolve_write_confirmation decide
    execute_approved_write_tool
program = tt

decisions :
    (elicit_write_confirmation asking none ≡ unsupported)
    × (elicit_write_confirmation (record asking { env = λ _. none }) none ≡ skipped)
    × (resolve_write_confirmation asking (record modern { form = false; url = true }) refusal
        ≡ record { accepted = true; approve = some true })
    × (execute_approved_write_tool asking empty_app end true (reviewed refusal) 5
        ≡ (empty_app, err declined_by_human))
unfolding program
decisions = (refl, refl, refl, refl)

execute_approved_write_tool_reviewed_example :
    let review = reviewed (resolve_write_confirmation asking older refusal) in
    let after = execute_approved_write_tool asking empty_app end true review 5 in
    ((refusal.accepted ≡ true)
      × (refusal.approve ≡ some true)
      × (after.0 ≡ (execute_approved_write asking empty_app end true 5).0)
      × IsRelayed (execute_approved_write asking empty_app end true 5).1 after.1)
    ⊎ (after ≡ (empty_app, err declined_by_human))
unfolding program
execute_approved_write_tool_reviewed_example =
    execute_approved_write_tool_reviewed asking empty_app end true older refusal 5 refl refl refl
