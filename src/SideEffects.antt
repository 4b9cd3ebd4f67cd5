-- ===== src/SideEffects.antt =====
-- The reviewed side-effect methods of src/odoo_mcp/write_policy.py: a list of exact names, from the
-- environment and from the policy file.
pub mod Allowed
mod Tests
use mcp_odoo.Prelude.{
  String, Bool, true, false, Option, none, some, List, [], ◌∷◌, ◌++◌, ◌==◌, str_eq, if◌then◌else◌,
}
use mcp_odoo.Prelude.Dict.{contains}
use mcp_odoo.Prelude.Result.{Result, ok, err, ◌>>=◌}
use mcp_odoo.Prelude.Text.{strip, split_on}
use mcp_odoo.Json.{
  Value, text, list, dict, Items, nil, cons, Fields, end, field, get_field, or_else,
}
use mcp_odoo.Write.Host.{Host}
use mcp_odoo.Write.Approvals.{text_at}
use mcp_odoo.FieldPolicy.Parse.{Files, policy_file_path}
use Prim.Native.Char.{Char, code}
use Prim.Native.String.{◌++◌ as append_text}

-- what Python raises: `.get` of what is no dict, a loop over what cannot be iterated, and what the
-- reading of the file raises besides an `OSError` and a `JSONDecodeError`
pub data PolicyFault : Type 0 where
  attribute_error type_error read_error : PolicyFault

-- `[item.strip() for item in … if item.strip()]`
unfoldable pub stripped_names : List String → List String
stripped_names [] = []
stripped_names (item ∷ items) =
    let rest = stripped_names items in if str_eq (strip item) "" then rest else strip item ∷ rest

-- the name of an entry of the file
unfoldable pub entry_name : Host → Value → String
entry_name host (text s) = strip s
entry_name host (dict fs) = strip (text_at host "method" fs)
entry_name host v = ""

-- the loop over the entries
unfoldable pub entry_names : Host → Items → List String
entry_names host nil = []
entry_names host (cons v vs) =
    let rest = entry_names host vs in
    if str_eq (entry_name host v) "" then rest else entry_name host v ∷ rest

unfoldable pub characters : String → Items
characters String.[] = nil
characters (String.◌∷◌ c s) = cons (text (String.◌∷◌ c String.[])) (characters s)

unfoldable pub key_items : Fields → Items
key_items end = nil
key_items (field k v fs) = cons (text k) (key_items fs)

-- what `for entry in v` runs through
unfoldable pub iterated : Value → Result PolicyFault Items
iterated (list vs) = ok vs
iterated (text s) = ok (characters s)
iterated (dict fs) = ok (key_items fs)
iterated _ = err type_error

-- what follows the reading of the file; one that cannot be read has no methods
abbrev pub load_decoded : Host → Option Value → Result PolicyFault (List String)
load_decoded host none = ok []
load_decoded host (some (dict fs)) = do
  entries ← iterated (or_else (get_field "allowed_side_effect_methods" fs) (list nil))
  ok (entry_names host entries)
load_decoded host (some _) = err attribute_error

-- `load_side_effect_policy`: the methods
unfoldable pub load_side_effect_policy : Host → Files → Result PolicyFault (List String)
load_side_effect_policy host files = elim (policy_file_path files) [
  | none ↦ ok []
  | some path ↦ if files.escapes path then err read_error else load_decoded host (files.decode path)
]

-- `if name not in merged: merged.append(name)`, behind what `merged` has
unfoldable pub merge_names : List String → List String → List String
merge_names merged [] = merged
merge_names merged (name ∷ names) =
    merge_names (if contains merged name then merged else merged ++ name ∷ []) names

-- `ODOO_MCP_ALLOWED_SIDE_EFFECT_METHODS`
abbrev pub env_methods : Files → List String
env_methods files =
    let raw : String = elim (files.env "ODOO_MCP_ALLOWED_SIDE_EFFECT_METHODS") [
      | none ↦ ""
      | some s ↦ s
    ] in
    stripped_names (split_on b',' raw)

-- `allowed_side_effect_methods`
unfoldable pub allowed_side_effect_methods : Host → Files → Result PolicyFault (List String)
allowed_side_effect_methods host files = do
  from_file ← load_side_effect_policy host files
  ok (merge_names [] (env_methods files ++ from_file))

-- `side_effect_method_allowed`
unfoldable pub side_effect_method_allowed : Host → Files → String → String → Result PolicyFault Bool
side_effect_method_allowed host files model method = do
  methods ← allowed_side_effect_methods host files
  ok (contains methods (append_text model (append_text "." method)))
