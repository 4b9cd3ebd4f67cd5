-- ===== src/Chatter/Approved.antt =====
-- A preview of `chatter_post` and the post that it allows.
use mcp_odoo.Prelude.Result.{ok, err}
use mcp_odoo.Prelude.{
  String, ◌≡◌, ◌≢◌, refl, Bool, true, false, none, some, [], ◌∷◌, ◌++◌, arith, eq_iff, eq_refl,
  str_eq, ◌∙◌, sym, ap,
}
use package.text.Mathlib.TextLemmas.{append_cancel_left}
use mcp_odoo.Json.{Value, text, dict, Fields, end, field, canonical}
use mcp_odoo.Write.Preview.{build_approval_token}
use mcp_odoo.Write.Host.{Host, str, returned}
use mcp_odoo.Write.Approvals.{App, token_of}
use mcp_odoo.Write.Execute.{Deployment, truthy_env}
use mcp_odoo.Resolve.{Resolved}
use mcp_odoo.Chatter.{
  Message, previewed, posted_approved, token_mismatch, canonical_then, chatter_token, check_message,
  build_chatter_payload, post_call, post, post_checked, chatter_post,
}
use mcp_odoo.Chatter.Covered.{content_of, read_content, read_content-canonical}
use mcp_odoo.Chatter.Posting.{chatter_post_checked}

different_texts : {s t : String} → s ≢ t → str_eq s t ≡ false
different_texts {s} {t} other = ground (arith, eq_iff s t, other)

-- the digest does not give one text for these two values, unless they are one
abbrev pub TellsApart : Host → Value → Value → Type 0
TellsApart host v w = host.digest v ≡ host.digest w → v ≡ w

-- the approval that a preview returns
abbrev pub chatter_approval : Deployment → Message → Resolved → Fields
chatter_approval d m r =
    canonical_then m r.instance_name
      (field "token" (text (chatter_token d.host m r.instance_name)) end)

module _ (d : Deployment) (app : App) (m : Message) (r : Resolved) where
  token_of-approval :
      token_of d.host (chatter_approval d m r) ≡ chatter_token d.host m r.instance_name
  unfolding token_of str
  token_of-approval = refl

  module _ (gated : truthy_env d.env "MCP_CHATTER_DIRECT" ≡ false)
      (passed : check_message d m ≡ ok r) where
    -- Where direct posts are off, a message that passes the checks is previewed without any effect.
    pub chatter_post_previews :
        (confirm : Bool)
        → chatter_post d app m none confirm ≡ (app, ok (previewed (chatter_approval d m r)))
    unfolding post_checked chatter_token
    chatter_post_previews confirm =
        chatter_post_checked d app m none confirm r passed ∙ rw (post_checked, gated) refl

    -- Where direct posts are off, a message that passes the checks is previewed without any effect,
    -- and the same arguments with the approval of the preview and `confirm` post the message, as
    -- long as Odoo answers.
    pub chatter_post_roundtrip :
        (confirm : Bool) (value : Value)
        → d.respond app.calls (post_call m r) ≡ returned value
        → (a : Fields) × (chatter_post d app m none confirm ≡ (app, ok (previewed a)))
          × (chatter_post d app m (some a) true ≡ (
            record app { calls = app.calls ++ post_call m r ∷ [] },
            ok (posted_approved value),
          ))
    unfolding post_checked post
    chatter_post_roundtrip confirm value answer = (
      chatter_approval d m r,
      chatter_post_previews confirm,
      chatter_post_checked d app m (some (chatter_approval d m r)) true r passed
          ∙ rw
              (
                post_checked,
                gated,
                token_of-approval,
                eq_refl (chatter_token d.host m r.instance_name),
                post,
                answer,
              )
              refl,
    )

    abbrev payload_of : Message → Resolved → Value
    payload_of n s = canonical (dict (build_chatter_payload n s.instance_name))

    different_tokens :
        (m' : Message) (r' : Resolved)
        → TellsApart d.host (payload_of m r) (payload_of m' r')
        → content_of m r.instance_name ≢ content_of m' r'.instance_name
        → chatter_token d.host m r.instance_name ≢ chatter_token d.host m' r'.instance_name
    unfolding chatter_token build_approval_token
    different_tokens m' r' apart other same = other (
        sym (read_content-canonical m r.instance_name)
        ∙ ap read_content (apart (append_cancel_left "odoo-write:" _ _ same))
        ∙ read_content-canonical m' r'.instance_name)

    -- Where direct posts are off, the approval of one message does not post another: if the digest
    -- tells their payloads apart, and the second message differs in its model, record, stripped body,
    -- type, subtype, partners, attachments or instance, it is refused and nothing is sent.
    pub chatter_post_changed :
        (m' : Message) (r' : Resolved) (a : Fields) (confirm confirm' : Bool)
        → chatter_post d app m none confirm ≡ (app, ok (previewed a))
        → check_message d m' ≡ ok r'
        → TellsApart d.host
            (canonical (dict (build_chatter_payload m r.instance_name)))
            (canonical (dict (build_chatter_payload m' r'.instance_name)))
        → content_of m r.instance_name ≢ content_of m' r'.instance_name
        → chatter_post d app m' (some a) confirm' ≡ (app, err token_mismatch)
    unfolding post_checked
    chatter_post_changed m' r' a confirm confirm' preview passed' apart other =
        let made : previewed (chatter_approval d m r) ≡ previewed a =
          cc (preview, chatter_post_previews confirm) in
        let approval : chatter_approval d m r ≡ a = cc made in
        chatter_post_checked d app m' (some a) confirm' r' passed'
        ∙ rw
            (
              sym approval,
              post_checked,
              gated,
              token_of-approval,
              different_texts (different_tokens m' r' apart other),
            )
            refl
