-- ===== src/Chatter.antt =====
-- `chatter_post` and `_build_chatter_payload` of src/odoo_mcp/tools_write.py: a message is previewed,
-- and posted when the approval of the preview comes back with the same arguments. No approval is
-- stored: the token is made again from the arguments. The audit log is left out.
pub mod Posting
pub mod Covered
pub mod Approved
mod Tests
use mcp_odoo.Prelude.Result.{Result, err, guard, ok, ◌>>=◌, ◌>>◌}
use mcp_odoo.Prelude.{
  String, Bool, true, false, not, ◌||◌, Option, none, some, List, [], ◌∷◌, ◌++◌, ◌==◌, str_eq,
  if◌then◌else◌,
}
use mcp_odoo.Prelude.Int.{ℤ, pos, negsuc}
use mcp_odoo.Prelude.Text.{strip}
use mcp_odoo.Json.{Value, int, text, list, dict, Items, nil, cons, Fields, end, field}
use mcp_odoo.Write.Host.{Host, Call, returned, raised}
use mcp_odoo.Write.Names.{is_model_name}
use mcp_odoo.Write.Preview.{build_approval_token, ids_items, text_or}
use mcp_odoo.Write.Approvals.{App, token_of}
use mcp_odoo.Write.Execute.{Deployment, truthy_env}
use mcp_odoo.Resolve.{Resolved, resolve_odoo}

-- the arguments of the tool that say what is posted
pub record Message : Type 0 where
  pub model : String
  pub record_id : ℤ
  pub body : String
  pub message_type : String
  pub subtype_xmlid : Option String
  pub partner_ids : Option (List ℤ)
  pub attachment_ids : Option (List ℤ)
  pub instance : Option String

pub data ChatterError : Type 0 where
  invalid_model invalid_record_id empty_body invalid_message_type : ChatterError
  token_mismatch confirm_required : ChatterError
  connection_failed remote_failed : String → ChatterError

-- the tool's answer: the approval of a preview, or what Odoo answered, with or without an approval
pub data ChatterReply : Type 0 where
  previewed : Fields → ChatterReply
  posted_direct posted_approved : Value → ChatterReply

-- `if subtype_xmlid: kwargs["subtype_xmlid"] = subtype_xmlid`
abbrev pub with_subtype : Option String → Fields → Fields
with_subtype none rest = rest
with_subtype (some s) rest = if str_eq s "" then rest else field "subtype_xmlid" (text s) rest

-- `if ids: kwargs[name] = [int(i) for i in ids]`
abbrev pub with_ids : String → Option (List ℤ) → Fields → Fields
with_ids name none rest = rest
with_ids name (some []) rest = rest
with_ids name (some (i ∷ is)) rest = field name (list (ids_items (i ∷ is))) rest

-- the keyword arguments of `message_post`, with the stripped body
unfoldable pub chatter_kwargs : Message → Fields
chatter_kwargs m = field "body" (text (strip m.body)) (
    field "message_type" (text m.message_type) (
      with_subtype m.subtype_xmlid
        (with_ids "partner_ids" m.partner_ids (with_ids "attachment_ids" m.attachment_ids end))))

abbrev pub canonical_then : Message → String → Fields → Fields
canonical_then m instance rest = field "model" (text m.model) (
    field "method" (text "message_post") (
      field "record_ids" (list (cons (int m.record_id) nil)) (
        field "kwargs" (dict (chatter_kwargs m))
          (field "instance" (text (text_or instance "default")) rest))))

-- `_build_chatter_payload`
unfoldable pub build_chatter_payload : Message → String → Fields
build_chatter_payload m instance = canonical_then m instance end

-- `build_approval_token(canonical)`
unfoldable pub chatter_token : Host → Message → String → String
unfolding build_chatter_payload
chatter_token host m instance = build_approval_token host (dict (build_chatter_payload m instance))

abbrev pub is_positive : ℤ → Bool
is_positive (pos n) = not (n == 0)
is_positive (negsuc n) = false

-- the checks of the arguments; the client is resolved first
unfoldable pub check_message : Deployment → Message → Result ChatterError Resolved
check_message d m = elim (resolve_odoo d m.instance) [
  | err message ↦ err (connection_failed message)
  | ok r ↦ do
    guard (is_model_name m.model) invalid_model
    guard (is_positive m.record_id) invalid_record_id
    guard (not (str_eq (strip m.body) "")) empty_body
    guard (str_eq m.message_type "comment" || str_eq m.message_type "notification")
        invalid_message_type
    ok r
]

-- `odoo.execute_method(model, "message_post", [record_id], **kwargs)`
unfoldable pub post_call : Message → Resolved → Call
post_call m r = record {
  instance = r.client;
  model = m.model;
  method = "message_post";
  args = cons (list (cons (int m.record_id) nil)) nil;
  kwargs = chatter_kwargs m;
}

unfoldable pub post :
    Deployment
    → App
    → Message
    → Resolved
    → (Value → ChatterReply)
    → App × Result ChatterError ChatterReply
post d app m r reply =
    let sent = record app { calls = app.calls ++ post_call m r ∷ [] } in
    elim (d.respond app.calls (post_call m r)) [
      | returned value ↦ (sent, ok (reply value))
      | raised message ↦ (sent, err (remote_failed message))
    ]

-- what follows the checks: direct mode, the preview, or the approved post
unfoldable pub post_checked :
    Deployment
    → App
    → Message
    → Option Fields
    → Bool
    → Resolved
    → App × Result ChatterError ChatterReply
post_checked d app m approval confirm r =
    let token = chatter_token d.host m r.instance_name in
    if truthy_env d.env "MCP_CHATTER_DIRECT" then post d app m r posted_direct else (elim approval [
      | none ↦
          (app, ok (previewed (canonical_then m r.instance_name (field "token" (text token) end))))
      | some a ↦
          if not (str_eq (token_of d.host a) token)
          then (app, err token_mismatch)
          else if not confirm
          then (app, err confirm_required)
          else post d app m r posted_approved
    ])

-- `chatter_post`
unfoldable pub chatter_post :
    Deployment → App → Message → Option Fields → Bool → App × Result ChatterError ChatterReply
chatter_post d app m approval confirm = elim (check_message d m) [
  | err e ↦ (app, err e)
  | ok r ↦ post_checked d app m approval confirm r
]
