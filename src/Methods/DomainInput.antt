-- ===== src/Methods/DomainInput.antt =====
-- `normalize_domain_input` of src/odoo_mcp/tool_helpers.py: the shapes in which a domain comes.
pub mod Terms
use mcp_odoo.Prelude.{
  String, Bool, true, false, not, ◌&&◌, ◌||◌, Option, none, some, str_eq, if◌then◌else◌,
}
use mcp_odoo.Json.{Value, null, text, list, dict, Items, nil, cons, Fields, get_field, get_or_null}

-- `json.loads`, none where it raises a `JSONDecodeError`, and `ast.literal_eval`, none where it raises
-- a `SyntaxError` or a `ValueError`; a literal that is no JSON value is null. `escapes` tells of the
-- texts where they raise something else, a `RecursionError` say.
pub record Decoders : Type 0 where
  pub loads : String → Option Value
  pub literal_eval : String → Option Value
  pub escapes : String → Bool

-- `s in ["&", "|", "!"]`
abbrev pub is_operator : String → Bool
is_operator s = str_eq s "&" || str_eq s "|" || str_eq s "!"

-- a term that is kept: an operator, or a list of a field, an operator and a value
abbrev pub is_domain_term : Value → Bool
is_domain_term (text s) = is_operator s
is_domain_term (list (cons (text field) (cons (text operator) (cons v nil)))) = true
is_domain_term _ = false

-- the loop over `domain_list`
unfoldable pub valid_conditions : Items → Items
valid_conditions nil = nil
valid_conditions (cons v vs) =
    let rest = valid_conditions vs in if is_domain_term v then cons v rest else rest

abbrev condition_of : Value → Option Value
condition_of (dict fs) = elim (get_field "field" fs) [
  | none ↦ none
  | some name ↦ elim (get_field "operator" fs) [
    | none ↦ none
    | some operator ↦ elim (get_field "value" fs) [
      | none ↦ none
      | some v ↦ some (list (cons name (cons operator (cons v nil))))
    ]
  ]
]
condition_of _ = none

-- the conditions of a dict that have all three keys
unfoldable pub dict_conditions : Items → Items
dict_conditions nil = nil
dict_conditions (cons v vs) =
    let rest = dict_conditions vs in elim (condition_of v) [ none ↦ rest | some c ↦ cons c rest ]

-- a list that holds nothing but one list that is not empty
abbrev unwrap : Items → Items
unwrap (cons (list (cons v vs)) nil) = cons v vs
unwrap vs = vs

-- one condition that stands alone
abbrev wrap : Items → Items
wrap (cons (text field) (cons (text operator) (cons v nil))) =
    let alone = cons (text field) (cons (text operator) (cons v nil)) in
    if is_operator field then alone else cons (list alone) nil
wrap vs = vs

unfoldable pub normalize_list : Items → Items
normalize_list vs = valid_conditions (wrap (unwrap vs))

-- a domain after it has been decoded
unfoldable pub normalize_decoded : Value → Items
normalize_decoded (dict fs) = elim (get_or_null "conditions" fs) [
  | list vs ↦ dict_conditions vs
  | _ ↦ nil
]
normalize_decoded (list vs) = normalize_list vs
normalize_decoded _ = nil

-- a text is read as JSON, or else as a Python literal
abbrev pub decoded : Decoders → String → Option Value
decoded ds s = elim (ds.loads s) [ some v ↦ some v | none ↦ ds.literal_eval s ]

abbrev normalize_text : Option Value → Items
normalize_text none = nil
normalize_text (some v) = normalize_decoded v

-- `normalize_domain_input`, none where the decoding of a text raises
unfoldable pub normalize_domain_input : Decoders → Value → Option Items
normalize_domain_input ds (text s) =
    if ds.escapes s then none else some (normalize_text (decoded ds s))
normalize_domain_input ds v = some (normalize_decoded v)
