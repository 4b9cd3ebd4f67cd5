-- ===== src/Chatter/Tests.antt =====
-- Runs of `chatter_post`, and its theorems at concrete inputs.
use mcp_odoo.Prelude.Result.{ok, err}
use mcp_odoo.Prelude.{
  String, ◌≡◌, ◌≢◌, ◌⊎◌, str_eq, arith, eq_iff, refl, ap, true, false, none, some, [], ◌∷◌, ◌++◌,
}
use mcp_odoo.Prelude.Int.{pos}
use mcp_odoo.Prelude.Text.{strip, lower}
use mcp_odoo.Json.{
  Value, int, text, dict, Fields, field, canonical, sort_keys, normalize, insert_field,
}
use mcp_odoo.Write.Host.{str, returned}
use mcp_odoo.Write.Names.{is_model_name}
use mcp_odoo.Write.Preview.{build_approval_token}
use mcp_odoo.Write.Approvals.{App, token_of}
use mcp_odoo.Write.Execute.{Deployment, truthy_env}
use mcp_odoo.Resolve.{Resolved, resolve_odoo}
use mcp_odoo.Chatter.{
  Message, empty_body, invalid_record_id, confirm_required, token_mismatch, previewed,
  posted_approved, build_chatter_payload, chatter_kwargs, chatter_token, check_message, post_call,
  post, post_checked, chatter_post,
}
use mcp_odoo.Chatter.Posting.{IsAllowed, calls-chatter_post}
use mcp_odoo.Chatter.Approved.{chatter_approval, chatter_post_roundtrip, chatter_post_changed}

apart : {s t : String} → str_eq s t ≡ false → s ≢ t
apart {s} {t} other same = ground (arith, eq_iff s t)

-- a digest that shows the body
shown : Value → String
shown (dict (field _ _ (field _ (dict (field _ (text body) _)) _))) = body
shown _ = "?"

told_apart : (v w : Value) → str_eq (shown v) (shown w) ≡ false → shown v ≡ shown w → v ≡ w
told_apart v w other same = ground (arith, eq_iff (shown v) (shown w))

abbrev deployment : Deployment
deployment = record {
  host = record { digest = shown; render = λ _. "?" };
  env = λ _. none;
  default_instance = "prod";
  connect = λ _. none;
  respond = λ _ _. returned (int (pos 55));
}

abbrev greeting : Message
greeting = record {
  model = "res.partner";
  record_id = pos 7;
  body = " Hello ";
  message_type = "comment";
  subtype_xmlid = none;
  partner_ids = some (pos 3 ∷ []);
  attachment_ids = none;
  instance = none;
}

abbrev farewell : Message
farewell = record greeting { body = "Bye" }

abbrev client : Resolved
client = record { instance_name = "prod"; client = none }

abbrev empty_app : App
empty_app = record { write_approvals = []; calls = [] }

program : Unit {0}
unfolding shown str strip lower is_model_name canonical sort_keys normalize insert_field
    build_approval_token token_of truthy_env resolve_odoo chatter_kwargs build_chatter_payload
    chatter_token check_message post_call post post_checked chatter_post
program = tt

approved_post :
    (chatter_post deployment empty_app greeting
      (some (chatter_approval deployment greeting client))
      true).1
    ≡ ok (posted_approved (int (pos 55)))
unfolding program
approved_post = refl

refusals :
    ((chatter_post deployment empty_app (record greeting { body = "  " }) none true).1
      ≡ err empty_body)
    × ((chatter_post deployment empty_app (record greeting { record_id = pos 0 }) none true).1
        ≡ err invalid_record_id)
    × ((chatter_post deployment empty_app greeting
          (some (chatter_approval deployment greeting client))
          false).1
        ≡ err confirm_required)
unfolding program
refusals = (refl, refl, refl)

calls-chatter_post_example :
    let after =
      (chatter_post deployment empty_app greeting
        (some (chatter_approval deployment greeting client))
        true).0 in
    (after.write_approvals ≡ [])
    × ((after.calls ≡ [])
        ⊎ ((r : Resolved) × (check_message deployment greeting ≡ ok r)
            × IsAllowed deployment greeting
                (some (chatter_approval deployment greeting client))
                true
                r
            × (after.calls ≡ [] ++ post_call greeting r ∷ [])))
calls-chatter_post_example =
    calls-chatter_post deployment empty_app greeting
      (some (chatter_approval deployment greeting client)) true

chatter_post_roundtrip_example :
    (a : Fields) × (chatter_post deployment empty_app greeting none false
      ≡ (empty_app, ok (previewed a)))
    × (chatter_post deployment empty_app greeting (some a) true ≡ (
      record empty_app { calls = post_call greeting client ∷ [] },
      ok (posted_approved (int (pos 55))),
    ))
unfolding program
chatter_post_roundtrip_example =
    chatter_post_roundtrip deployment empty_app greeting client refl refl false (int (pos 55)) refl

chatter_post_changed_example :
    chatter_post deployment empty_app farewell
      (some (chatter_approval deployment greeting client))
      true
    ≡ (empty_app, err token_mismatch)
unfolding program
chatter_post_changed_example =
    chatter_post_changed deployment empty_app greeting client refl refl farewell client
      (chatter_approval deployment greeting client) false true refl refl
      (told_apart (canonical (dict (build_chatter_payload greeting "prod")))
        (canonical (dict (build_chatter_payload farewell "prod"))) refl)
      (λ same. apart refl (ap (λ c. c.body) same))
