-- ===== src/FieldRanking.antt =====
-- `select_smart_fields` of src/odoo_mcp/field_ranking.py, the fields that a read asks for where the
-- caller names none, and `resolve_read_fields` of src/odoo_mcp/server_core.py. A type that is no text
-- is taken as "", which is none of the names that types are compared with either.
pub mod Forced
pub mod Selected
mod Tests
use Prim.Native.String.{compare}
use Prim.Native.Nat.{Ordering}
use mcp_odoo.Prelude.{
  ℕ, String, Bool, true, false, not, ◌&&◌, ◌||◌, Option, none, some, List, [], ◌∷◌, ◌++◌, any,
  length, str_eq, leb, ◌==◌, if◌then◌else◌,
}
use mcp_odoo.Prelude.Dict.{Dict, contains, get}
use mcp_odoo.Prelude.Int.{ℤ, pos, negsuc}
use mcp_odoo.Prelude.Text.{starts_with, ends_with, has_part}
use mcp_odoo.Json.{Value, text, dict, Fields, end, field, get_field, get_or_null, truthy}
use mcp_odoo.Json.Entries.{has_key}
use mcp_odoo.Write.Preview.{no_fields}

abbrev pub technical_field_names : List String
technical_field_names =
    "id" ∷ "create_uid" ∷ "create_date" ∷ "write_uid" ∷ "write_date" ∷ "__last_update"
    ∷ "display_name" ∷ []

abbrev pub technical_field_prefixes : List String
technical_field_prefixes = "message_" ∷ "activity_" ∷ "website_message_" ∷ "website_meta_" ∷ []

abbrev pub priority_field_names : Dict ℕ
priority_field_names =
    ("name", 100)
    ∷ ("code", 95)
    ∷ ("ref", 95)
    ∷ ("default_code", 95)
    ∷ ("barcode", 90)
    ∷ ("login", 90)
    ∷ ("email", 90)
    ∷ ("phone", 85)
    ∷ ("mobile", 85)
    ∷ ("state", 85)
    ∷ ("status", 85)
    ∷ ("stage_id", 85)
    ∷ ("kanban_state", 80)
    ∷ ("active", 80)
    ∷ ("partner_id", 75)
    ∷ ("user_id", 75)
    ∷ ("employee_id", 75)
    ∷ ("company_id", 70)
    ∷ ("currency_id", 70)
    ∷ ("amount_total", 70)
    ∷ ("amount_untaxed", 65)
    ∷ ("price_unit", 65)
    ∷ ("price_total", 65)
    ∷ ("quantity", 60)
    ∷ ("product_id", 60)
    ∷ ("product_uom_id", 55)
    ∷ ("date", 55)
    ∷ ("date_order", 55)
    ∷ ("date_invoice", 55)
    ∷ ("invoice_date", 55)
    ∷ ("date_deadline", 55)
    ∷ ("date_start", 55)
    ∷ ("date_end", 55)
    ∷ ("scheduled_date", 55)
    ∷ []

-- `_is_technical_field_name`
unfoldable pub is_technical_field_name : String → Bool
is_technical_field_name name =
    contains technical_field_names name
    || any (λ prefix. starts_with prefix name) technical_field_prefixes

abbrev text_or_empty : Value → String
text_or_empty (text t) = t
text_or_empty _ = ""

-- `str(meta.get("type", ""))`
abbrev pub field_type : Fields → String
field_type meta = text_or_empty (get_or_null "type" meta)

-- `meta.get("compute") and not meta.get("store", True)`
abbrev pub is_volatile : Fields → Bool
is_volatile meta =
    truthy (get_or_null "compute" meta)
    && (elim (get_field "store" meta) [ none ↦ false | some v ↦ not (truthy v) ])

-- `_is_skip_metadata`
unfoldable pub is_skip_metadata : Fields → Bool
is_skip_metadata meta =
    truthy (get_or_null "automatic" meta)
    || str_eq (field_type meta) "binary"
    || is_volatile meta
    || contains ("one2many" ∷ "many2many" ∷ []) (field_type meta) && is_volatile meta

-- the score of a field that has no priority
unfoldable pub type_score : String → Fields → ℕ
type_score name meta =
    let t = field_type meta in
    if truthy (get_or_null "tracking" meta)
    then 50
    else if ends_with "_id" name && str_eq t "many2one"
    then 45
    else if str_eq t "datetime" || str_eq t "date" || has_part "date" name
    then 40
    else if contains ("selection" ∷ "boolean" ∷ []) t
    then 35
    else if contains ("char" ∷ "text" ∷ "html" ∷ []) t
    then 25
    else if contains ("integer" ∷ "float" ∷ "monetary" ∷ []) t
    then 25
    else if contains ("one2many" ∷ "many2many" ∷ []) t
    then 5
    else 10

-- `_smart_field_score`
unfoldable pub smart_field_score : String → Fields → ℕ
smart_field_score name meta = elim (get name priority_field_names) [
  | some score ↦ score
  | none ↦ type_score name meta
]

-- a score with the name of a field
abbrev pub Candidate : Type 0
Candidate = ℕ × String

-- the order of `(-score, name)`: the first is strictly before the second
unfoldable pub ranks_before : Candidate → Candidate → Bool
ranks_before (a, n) (b, m) =
    not (leb a b) || a == b && (elim (compare n m) [ Ordering.lt ↦ true | _ ↦ false ])

unfoldable pub insert_candidate : Candidate → List Candidate → List Candidate
unfolding ranks_before
insert_candidate c [] = c ∷ []
insert_candidate c (d ∷ ds) =
    let rest = insert_candidate c ds in if ranks_before d c then d ∷ rest else c ∷ d ∷ ds

-- `candidates.sort`, which keeps the order of equal ones
unfoldable pub sort_candidates : List Candidate → List Candidate
unfolding insert_candidate
sort_candidates [] = []
sort_candidates (c ∷ cs) = insert_candidate c (sort_candidates cs)

-- the names that are always included, behind those before
unfoldable pub force_fields : Fields → List String → List String → List String
force_fields metadata forced [] = forced
force_fields metadata forced (name ∷ names) =
    force_fields metadata
      (if not (contains forced name) && has_key name metadata then forced ++ name ∷ [] else forced)
      names

-- the candidates that one entry of the metadata gives
unfoldable pub candidate_of : List String → String → Value → Option Candidate
candidate_of forced name (dict meta) =
    if contains forced name || is_technical_field_name name || is_skip_metadata meta
    then none
    else some (smart_field_score name meta, name)
candidate_of forced name _ = none

unfoldable pub list_candidates : List String → Fields → List Candidate
unfolding candidate_of
list_candidates forced end = []
list_candidates forced (field name raw_meta metadata) =
    let rest = list_candidates forced metadata in
    elim (candidate_of forced name raw_meta) [ none ↦ rest | some c ↦ c ∷ rest ]

-- the loop that fills the selection
unfoldable pub fill_selected : ℕ → List String → List Candidate → List String
fill_selected max_fields selected [] = selected
fill_selected max_fields selected ((_, name) ∷ candidates) =
    let rest =
      fill_selected max_fields (if contains selected name then selected else selected ++ name ∷ [])
        candidates in
    if leb max_fields (length selected) then selected else rest

-- the selection, of at least one field
unfoldable pub select_some : Fields → ℕ → List String → List String
select_some metadata max_fields always_include =
    let forced = force_fields metadata ("id" ∷ []) always_include in
    fill_selected max_fields forced (sort_candidates (list_candidates forced metadata))

-- `select_smart_fields`, where no name to include always is []
unfoldable pub select_smart_fields : Fields → ℤ → List String → List String
select_smart_fields metadata (negsuc n) always_include = []
select_smart_fields metadata (pos n) always_include =
    if n == 0 then [] else select_some metadata n always_include

-- a request for every field
abbrev is_every_field : List String → Bool
is_every_field (name ∷ []) = str_eq name "*"
is_every_field _ = false

-- `resolve_read_fields`, of the metadata that `_cached_fields_metadata` gives
unfoldable pub resolve_read_fields : Fields → ℤ → Option (List String) → Option (List String)
resolve_read_fields metadata max_fields none =
    if no_fields metadata then none else some (select_smart_fields metadata max_fields [])
resolve_read_fields metadata max_fields (some fields) =
    if is_every_field fields then none else some fields
