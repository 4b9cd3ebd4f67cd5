-- ===== src/FieldPolicy/Parse.antt =====
-- `_parse_field_policy`, and its loading and caching (src/odoo_mcp/field_policy.py). A raise is
-- an error value. Reading and decoding the file is a parameter.
pub mod Shape
use mcp_odoo.Prelude.Result.{Result, err, ok, ◌>>=◌}
use mcp_odoo.Prelude.{
  String, Bool, true, false, not, Option, none, some, List, [], ◌∷◌, str_eq, if◌then◌else◌,
}
use mcp_odoo.Prelude.Dict
use mcp_odoo.Prelude.Dict.{Dict}
use mcp_odoo.Prelude.Text.{strip}
use mcp_odoo.Json.{Value, text, list, dict, Items, nil, cons, Fields, end, field, get_field}
use mcp_odoo.FieldPolicy.{Mode, deny, allow, ModelFieldRule, FieldPolicy}

pub data PolicyError : Type 0 where
  acl_not_object : PolicyError
  instance_not_object : String → PolicyError
  model_not_object needs_exactly_one not_names : String → String → PolicyError
  unreadable_file not_object_file read_raised : String → PolicyError

-- the texts of a list, if it holds nothing else
unfoldable pub texts_of : Items → Option (List String)
texts_of nil = some []
texts_of (cons v vs) = elim (texts_of vs) [
  | none ↦ none
  | some rest ↦ elim v [ text s ↦ some (s ∷ rest) | _ ↦ none ]
]

-- `item.strip() for item in raw if item.strip()`
unfoldable pub stripped : List String → List String
stripped [] = []
stripped (s ∷ ss) = let rest = stripped ss in if str_eq (strip s) "" then rest else strip s ∷ rest

-- the value must be a list of texts
unfoldable pub names_rule : PolicyError → Mode → Value → Result PolicyError ModelFieldRule
names_rule e mode v = elim v [
  | list vs ↦ elim (texts_of vs) [
    | none ↦ err e
    | some names ↦ ok (record { mode = mode; fields = stripped names })
  ]
  | _ ↦ err e
]

-- the tests on the keys of one model's entry
unfoldable pub choose_rule :
    String → String → Option Value → Option Value → Result PolicyError ModelFieldRule
choose_rule instance model (some v) none = names_rule (not_names instance model) deny v
choose_rule instance model none (some v) = names_rule (not_names instance model) allow v
choose_rule instance model _ _ = err (needs_exactly_one instance model)

-- the body of the inner loop
unfoldable pub parse_rule : String → String → Value → Result PolicyError ModelFieldRule
parse_rule instance model spec = elim spec [
  | dict fs ↦ choose_rule instance model (get_field "deny" fs) (get_field "allow" fs)
  | _ ↦ err (model_not_object instance model)
]

-- the inner loop, over `models.items()`
unfoldable pub parse_models :
    String → Fields → Dict ModelFieldRule → Result PolicyError (Dict ModelFieldRule)
parse_models instance end rules = ok rules
parse_models instance (field model spec fs) rules = do
  rule ← parse_rule instance model spec
  parse_models instance fs (Dict.put model rule rules)

-- the outer loop, over `acl.items()`
unfoldable pub parse_instances : Fields → FieldPolicy → Result PolicyError FieldPolicy
parse_instances end policy = ok policy
parse_instances (field instance models fs) policy = elim models [
  | dict ms ↦ do
    rules ← parse_models instance ms []
    parse_instances fs (Dict.put instance rules policy)
  | _ ↦ err (instance_not_object instance)
]

-- `_parse_field_policy`
unfoldable pub parse_field_policy : Fields → Result PolicyError FieldPolicy
parse_field_policy config = elim (get_field "field_acl" config) [
  | none ↦ ok []
  | some acl ↦ elim acl [ dict fs ↦ parse_instances fs [] | _ ↦ err acl_not_object ]
]

-- What the process has around it: the environment, the files that exist, and what a file decodes
-- to as JSON (`none` where that is an `OSError` or a `JSONDecodeError`); `escapes` tells of the files
-- whose reading raises something else, as a text that is not UTF-8 does.
pub record Files : Type 0 where
  pub env : String → Option String
  pub exists : String → Bool
  pub decode : String → Option Value
  pub escapes : String → Bool

abbrev env_text : Files → String → String
env_text files name = elim (files.env name) [ none ↦ "" | some s ↦ strip s ]

-- `policy_file_path` of src/odoo_mcp/write_policy.py
unfoldable pub policy_file_path : Files → Option String
policy_file_path files =
    let explicit = env_text files "ODOO_MCP_POLICY_FILE" in
    if not (str_eq explicit "")
    then some explicit
    else if files.exists "odoo_mcp_policy.json"
    then some "odoo_mcp_policy.json"
    else none

-- `field_policy_file_path`
unfoldable pub field_policy_file_path : Files → Option String
field_policy_file_path files =
    let explicit = env_text files "ODOO_MCP_FIELD_POLICY_FILE" in
    if not (str_eq explicit "") then some explicit else policy_file_path files

-- `load_field_policy`
unfoldable pub load_field_policy : Files → Result PolicyError FieldPolicy
load_field_policy files = elim (field_policy_file_path files) [
  | none ↦ ok []
  | some path ↦ if files.escapes path then err (read_raised path) else (elim (files.decode path) [
    | none ↦ err (unreadable_file path)
    | some v ↦ elim v [ dict fs ↦ parse_field_policy fs | _ ↦ err (not_object_file path) ]
  ])
]

-- `get_field_policy`: the cached policy, or what loading gives; a failed load caches nothing
unfoldable pub get_field_policy :
    Files → Option FieldPolicy → Option FieldPolicy × Result PolicyError FieldPolicy
get_field_policy files (some policy) = (some policy, ok policy)
get_field_policy files none = elim (load_field_policy files) [
  | ok policy ↦ (some policy, ok policy)
  | err e ↦ (none, err e)
]
