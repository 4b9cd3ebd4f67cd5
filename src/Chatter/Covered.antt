-- ===== src/Chatter/Covered.antt =====
-- What the token of a message covers.
use mcp_odoo.Prelude.{
  String, ◌≡◌, ◌∙◌, refl, sym, eq_iff, eq_refl, ap, Bool-cases, false, Option, none, some, List, [],
  ◌∷◌, inl, inr, str_eq,
}
use mcp_odoo.Prelude.Int.{ℤ}
use mcp_odoo.Prelude.Text.{strip}
use mcp_odoo.Json.{
  Value, int, text, list, dict, Items, nil, cons, Fields, end, get_field, sort_keys, normalize,
  canonical,
}
use mcp_odoo.Json.Lookup.{canonical_option, get_field-canonical}
use mcp_odoo.Write.Preview.{text_or, ids_items}
use mcp_odoo.Chatter.{Message, with_subtype, with_ids, chatter_kwargs, build_chatter_payload}

-- what a message posts, where, and for whom
pub record Content : Type 0 where
  pub model : String
  pub record_id : List ℤ
  pub body : String
  pub message_type : String
  pub subtype : String
  pub partners : List ℤ
  pub attachments : List ℤ
  pub instance : String

abbrev posted_ids : Option (List ℤ) → List ℤ
posted_ids none = []
posted_ids (some is) = is

abbrev posted_subtype : Option String → String
posted_subtype none = ""
posted_subtype (some s) = s

-- the content of a message for an instance; the body is stripped
abbrev pub content_of : Message → String → Content
content_of m instance = record {
  model = m.model;
  record_id = m.record_id ∷ [];
  body = strip m.body;
  message_type = m.message_type;
  subtype = posted_subtype m.subtype_xmlid;
  partners = posted_ids m.partner_ids;
  attachments = posted_ids m.attachment_ids;
  instance = text_or instance "default";
}

-- the field of an object
abbrev at : String → Option Value → Option Value
at k (some (dict fs)) = get_field k fs
at k _ = none

abbrev read_text : Option Value → String
read_text (some (text s)) = s
read_text _ = ""

abbrev int_of : Value → List ℤ → List ℤ
int_of (int a) is = a ∷ is
int_of _ is = is

abbrev ints_of : Items → List ℤ
ints_of nil = []
ints_of (cons v vs) = int_of v (ints_of vs)

abbrev read_ints : Option Value → List ℤ
read_ints (some (list vs)) = ints_of vs
read_ints _ = []

-- the content that stands in a payload
abbrev pub read_content : Value → Content
read_content v =
    let kwargs = at "kwargs" (some v) in
    record {
      model = read_text (at "model" (some v));
      record_id = read_ints (at "record_ids" (some v));
      body = read_text (at "body" kwargs);
      message_type = read_text (at "message_type" kwargs);
      subtype = read_text (at "subtype_xmlid" kwargs);
      partners = read_ints (at "partner_ids" kwargs);
      attachments = read_ints (at "attachment_ids" kwargs);
      instance = read_text (at "instance" (some v));
    }

at-canonical :
    (k : String) (fs : Fields)
    → at k (some (canonical (dict fs))) ≡ canonical_option (get_field k fs)
unfolding canonical sort_keys normalize
at-canonical k fs = get_field-canonical k fs

ints_of-canonical : (is : List ℤ) → read_ints (some (canonical (list (ids_items is)))) ≡ is
unfolding canonical sort_keys normalize
ints_of-canonical [] = refl
ints_of-canonical (i ∷ is) = ap (λ js. i ∷ js) (ints_of-canonical is)

skip_subtype :
    (k : String) (subtype : Option String) (rest : Fields)
    → str_eq "subtype_xmlid" k ≡ false
    → get_field k (with_subtype subtype rest) ≡ get_field k rest
skip_subtype k none rest h = refl
skip_subtype k (some s) rest h = elim (Bool-cases (str_eq s "")) [
  | inl empty ↦ rw empty refl
  | inr given ↦ rw (given, h) refl
]

skip_ids :
    (k name : String) (is : Option (List ℤ)) (rest : Fields)
    → str_eq name k ≡ false
    → get_field k (with_ids name is rest) ≡ get_field k rest
skip_ids k name none rest h = refl
skip_ids k name (some []) rest h = refl
skip_ids k name (some (i ∷ is)) rest h = rw h refl

found_subtype :
    (subtype : Option String) (rest : Fields)
    → get_field "subtype_xmlid" rest ≡ none
    → read_text (canonical_option (get_field "subtype_xmlid" (with_subtype subtype rest)))
      ≡ posted_subtype subtype
unfolding canonical sort_keys normalize
found_subtype none rest h = rw h refl
found_subtype (some s) rest h = elim (Bool-cases (str_eq s "")) [
  | inl empty ↦ rw (empty, h) (sym ((eq_iff s "").0 empty))
  | inr given ↦ rw given refl
]

found_ids :
    (name : String) (is : Option (List ℤ)) (rest : Fields)
    → get_field name rest ≡ none
    → read_ints (canonical_option (get_field name (with_ids name is rest))) ≡ posted_ids is
found_ids name none rest h = rw h refl
found_ids name (some []) rest h = rw h refl
found_ids name (some (i ∷ is)) rest h = rw (eq_refl name) (ints_of-canonical (i ∷ is))

module _ (m : Message) where
  abbrev attachments : Fields
  attachments = with_ids "attachment_ids" m.attachment_ids end

  abbrev ids : Fields
  ids = with_ids "partner_ids" m.partner_ids attachments

  subtype_covered :
      read_text (canonical_option (get_field "subtype_xmlid" (with_subtype m.subtype_xmlid ids)))
      ≡ posted_subtype m.subtype_xmlid
  subtype_covered = found_subtype m.subtype_xmlid ids (
      skip_ids "subtype_xmlid" "partner_ids" m.partner_ids attachments refl
      ∙ skip_ids "subtype_xmlid" "attachment_ids" m.attachment_ids end refl)

  partners_covered :
      read_ints (canonical_option (get_field "partner_ids" (with_subtype m.subtype_xmlid ids)))
      ≡ posted_ids m.partner_ids
  partners_covered =
      ap (λ o. read_ints (canonical_option o)) (skip_subtype "partner_ids" m.subtype_xmlid ids refl)
      ∙ found_ids "partner_ids" m.partner_ids attachments
          (skip_ids "partner_ids" "attachment_ids" m.attachment_ids end refl)

  attachments_covered :
      read_ints (canonical_option (get_field "attachment_ids" (with_subtype m.subtype_xmlid ids)))
      ≡ posted_ids m.attachment_ids
  attachments_covered =
      ap (λ o. read_ints (canonical_option o))
        (skip_subtype "attachment_ids" m.subtype_xmlid ids refl
          ∙ skip_ids "attachment_ids" "partner_ids" m.partner_ids attachments refl)
      ∙ found_ids "attachment_ids" m.attachment_ids end refl

  module _ (instance : String) where
    abbrev payload : Fields
    payload = build_chatter_payload m instance

    in_kwargs :
        (k : String)
        → at k (at "kwargs" (some (canonical (dict payload))))
          ≡ canonical_option (get_field k (chatter_kwargs m))
    unfolding build_chatter_payload
    in_kwargs k = ap (at k) (at-canonical "kwargs" payload) ∙ at-canonical k (chatter_kwargs m)

    -- the canonical payload tells the content
    pub read_content-canonical : read_content (canonical (dict payload)) ≡ content_of m instance
    unfolding build_chatter_payload chatter_kwargs canonical sort_keys normalize
    read_content-canonical = λ i. record {
      model = ap read_text (at-canonical "model" payload) i;
      record_id = ap read_ints (at-canonical "record_ids" payload) i;
      body = ap read_text (in_kwargs "body") i;
      message_type = ap read_text (in_kwargs "message_type") i;
      subtype = (ap read_text (in_kwargs "subtype_xmlid") ∙ subtype_covered) i;
      partners = (ap read_ints (in_kwargs "partner_ids") ∙ partners_covered) i;
      attachments = (ap read_ints (in_kwargs "attachment_ids") ∙ attachments_covered) i;
      instance = ap read_text (at-canonical "instance" payload) i;
    }
