-- ===== src/Sign/Lists.antt =====
-- The lists of src/odoo_mcp/sign_policy.py: which models and fields the Sign profile may touch.
use mcp_odoo.Prelude.{String, not, ◌||◌, List, [], ◌∷◌, ◌++◌, keep, str_eq, if◌then◌else◌}

abbrev pub sign_models : List String
sign_models =
    "sign.completed.document" ∷ "sign.document" ∷ "sign.item" ∷ "sign.item.option"
    ∷ "sign.item.radio.set" ∷ "sign.item.role" ∷ "sign.item.type" ∷ "sign.log" ∷ "sign.request"
    ∷ "sign.request.item" ∷ "sign.request.item.value" ∷ "sign.request.share" ∷ "sign.send.request"
    ∷ "sign.send.request.signer" ∷ "sign.template" ∷ "sign.template.preview" ∷ "sign.template.tag"
    ∷ []

abbrev pub mutable_models : List String
mutable_models =
    keep (λ m. not (str_eq m "sign.completed.document" || str_eq m "sign.log")) sign_models

abbrev pub unlink_models : List String
unlink_models =
    "sign.document" ∷ "sign.item" ∷ "sign.item.option" ∷ "sign.item.radio.set"
    ∷ "sign.request.share" ∷ "sign.send.request" ∷ "sign.send.request.signer"
    ∷ "sign.template.preview" ∷ "sign.template.tag" ∷ []

abbrev pub blocked_read_fields : List String
blocked_read_fields = "access_token" ∷ "signature" ∷ "datas" ∷ "share_link" ∷ []

abbrev pub blocked_write_fields : List String
blocked_write_fields = "access_token" ∷ "signature" ∷ "share_link" ∷ []

abbrev request_blocked_fields : List String
request_blocked_fields =
    "state" ∷ "completion_date" ∷ "completed_document_attachment_ids" ∷ "completed_document_ids"
    ∷ "sign_log_ids" ∷ "integrity" ∷ "nb_closed" ∷ "nb_total" ∷ "nb_wait" ∷ "progress"
    ∷ "start_sign" ∷ []

abbrev request_item_blocked_fields : List String
request_item_blocked_fields = "state" ∷ "signed_without_extra_auth" ∷ []

-- the fields of a model that are not to be written
abbrev pub blocked_for : String → List String
blocked_for model =
    if str_eq model "sign.request"
    then blocked_write_fields ++ request_blocked_fields
    else if str_eq model "sign.request.item"
    then blocked_write_fields ++ request_item_blocked_fields
    else blocked_write_fields

abbrev pub default_fields : List String
default_fields =
    "id" ∷ "name" ∷ "display_name" ∷ "active" ∷ "reference" ∷ "state" ∷ "template_id"
    ∷ "document_ids" ∷ "attachment_id" ∷ "subject" ∷ "message" ∷ "body" ∷ "partner_id" ∷ "role_id"
    ∷ "responsible_id" ∷ "type_id" ∷ "request_item_ids" ∷ "sign_item_ids"
    ∷ "completed_document_attachment_ids" ∷ "validity" ∷ "reminder_enabled" ∷ "reminder"
    ∷ "completion_date" ∷ "scheduled_date" ∷ "certificate_reference" ∷ "set_sign_order"
    ∷ "mail_sent_order" ∷ "required" ∷ "page" ∷ "posX" ∷ "posY" ∷ "width" ∷ "height" ∷ "alignment"
    ∷ "create_date" ∷ "write_date" ∷ []
